-- ===== src/Device/Poll.antt =====
-- `poll`: the loop waits until a condition holds, at steps of a millisecond.
use pcilibs_rs.Prelude.{
  ℕ, zero, suc, ◌+◌, ◌-◌, ◌*◌, Bool, true, false, ltb, ok, err, ◌≡◌, ◌≤◌, ◌<◌, refl, arith, Result,
  ◌⊎◌, inl, inr, Bool-cases, ltb→lt, ap, ◌∙◌,
}
use pcilibs_rs.Device.{Action, Failure, out_of_fuel, timed_out, Machine}

abbrev pub milliseconds : ℕ → ℕ
milliseconds n = n * 1000000

module _ {S : Type 0} (machine : Machine S) where
  -- The loop of `poll`; without fuel it gives up in a way the source does not.
  unfoldable pub poll_from : ℕ → ℕ → ℕ → (S → Bool × S) → Action S (Unit {0})
  poll_from zero start timeout done s = (err out_of_fuel, s)
  poll_from (suc fuel) start timeout done s =
      let checked = done s in
      elim checked.0 [
        | true ↦ (ok tt, checked.1)
        | false ↦ elim (ltb timeout (machine.now checked.1 - start)) [
          | true ↦ (err timed_out, checked.1)
          | false ↦ poll_from fuel start timeout done (machine.sleep (milliseconds 1) checked.1)
        ]
      ]

  -- `poll(what, Duration::from_millis(timeout), done)`
  unfoldable pub poll : ℕ → (S → Bool × S) → Action S (Unit {0})
  unfolding poll_from
  poll timeout done s = poll_from (suc (suc timeout)) (machine.now s) (milliseconds timeout) done s

  -- A condition that holds at once is waited for by one check.
  pub poll_at_once :
      (timeout : ℕ) (done : S → Bool × S) (s t : S)
      → done s ≡ (true, t)
      → poll timeout done s ≡ (ok tt, t)
  unfolding poll
  poll_at_once timeout done s t h =
      poll_from_at_once (suc timeout) (machine.now s) (milliseconds timeout)
    where
      poll_from_at_once :
          (fuel start limit : ℕ) → poll_from (suc fuel) start limit done s ≡ (ok tt, t)
      poll_from_at_once fuel start limit =
          unfold poll_from in rw (h, poll_from) (ap (λ u. (ok tt, u.1)) h)

  -- The clock runs on in a sleep, and stands still or runs on in the check.
  pub record IsClock (done : S → Bool × S) : Type 0 where
    pub sleeps : (d : ℕ) (s : S) → machine.now s + d ≤ machine.now (machine.sleep d s)
    pub checks : (s : S) → machine.now s ≤ machine.now (done s).1

  -- The condition held at last, or the time ran out.
  abbrev pub IsPolled : ℕ → ℕ → (S → Bool × S) → Result Failure (Unit {0}) × S → Type 0
  IsPolled start timeout done (r, s) =
      ((t : S) × (r ≡ ok tt) × (done t ≡ (true, s)))
      ⊎ ((r ≡ err timed_out) × (timeout < machine.now s - start))

  poll_from-IsPolled :
      (fuel start timeout : ℕ) (done : S → Bool × S) (s : S)
      → IsClock done
      → start ≤ machine.now s
      → timeout < machine.now s - start + milliseconds fuel
      → IsPolled start timeout done (poll_from (suc fuel) start timeout done s)
  unfolding poll_from
  poll_from-IsPolled zero start timeout done s c le h = elim (Bool-cases (done s).0) [
    | inl e ↦ rw (e, poll_from) (inl (s, refl, ap (λ b. (b, (done s).1)) e))
    | inr e ↦
        let late : ltb timeout (machine.now (done s).1 - start) ≡ true =
          (let up = c.checks s in ground arith) in
        rw (e, poll_from) (rw late (inr (refl, ltb→lt _ _ late)))
  ]
  poll_from-IsPolled (suc n) start timeout done s c le h = elim (Bool-cases (done s).0) [
    | inl e ↦ rw (e, poll_from) (inl (s, refl, ap (λ b. (b, (done s).1)) e))
    | inr e ↦ elim (Bool-cases (ltb timeout (machine.now (done s).1 - start))) [
      | inl late ↦ rw (e, poll_from) (rw late (inr (refl, ltb→lt _ _ late)))
      | inr early ↦
          rw (e, poll_from)
            (rw early (
              poll_from-IsPolled n start timeout done _ c
                (let up = c.checks s in
                  let on = c.sleeps (milliseconds 1) (done s).1 in omega arith)
                (let up = c.checks s in
                  let on = c.sleeps (milliseconds 1) (done s).1 in ground arith)))
    ]
  ]

  -- With a clock that a sleep moves on by its length at least and that never runs back: `poll`
  -- ends, either because the condition held when it was checked last, or because more time
  -- than the timeout has passed since the start.
  pub poll-IsPolled :
      (timeout : ℕ) (done : S → Bool × S) (s : S)
      → IsClock done
      → IsPolled (machine.now s) (milliseconds timeout) done (poll timeout done s)
  unfolding poll
  poll-IsPolled timeout done s c =
      poll_from-IsPolled (suc timeout) (machine.now s) (milliseconds timeout) done s c (omega arith)
        (omega arith)

  poll_from-view :
      {H : Type 0} (view : S → H) (done : S → Bool × S)
      → ((s : S) → view (done s).1 ≡ view s)
      → ((d : ℕ) (s : S) → view (machine.sleep d s) ≡ view s)
      → (fuel start timeout : ℕ) (s : S) → view (poll_from fuel start timeout done s).1 ≡ view s
  unfolding poll_from
  poll_from-view view done checks sleeps zero start timeout s = refl
  poll_from-view view done checks sleeps (suc fuel) start timeout s =
      let again =
        poll_from-view view done checks sleeps fuel start timeout
          (machine.sleep (milliseconds 1) (done s).1) in
      elim (Bool-cases (done s).0) [
        | inl e ↦ rw (e, poll_from) (checks s)
        | inr e ↦ elim (Bool-cases (ltb timeout (machine.now (done s).1 - start))) [
          | inl late ↦ rw (e, poll_from) (rw late (checks s))
          | inr early ↦
              rw (e, poll_from) (rw early (again ∙ sleeps (milliseconds 1) (done s).1 ∙ checks s))
        ]
      ]

  -- What neither a check nor a sleep changes, `poll` does not change.
  pub poll-view :
      {H : Type 0} (view : S → H) (timeout : ℕ) (done : S → Bool × S) (s : S)
      → ((s : S) → view (done s).1 ≡ view s)
      → ((d : ℕ) (s : S) → view (machine.sleep d s) ≡ view s)
      → view (poll timeout done s).1 ≡ view s
  unfolding poll
  poll-view view timeout done s checks sleeps =
      poll_from-view view done checks sleeps (suc (suc timeout)) (machine.now s)
        (milliseconds timeout) s

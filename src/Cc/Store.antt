-- ===== src/Cc/Store.antt =====
-- What a client of the knobs relies on: each write is done or not, and a read tells the value
-- written last. A history lists the writes that were done, the latest first.
pub use pcilibs_rs.Effects.Hoare.{Post, Hoare, Hoare-bind}
use pcilibs_rs.Prelude.{
  ℕ, Bool, true, false, ◌==◌, if◌then◌else◌, ok, err, List, [], ◌∷◌, ◌≡◌, ◌⊎◌, inl, inr, arith,
  Bool-cases, Result-cases,
}
use pcilibs_rs.Device.{Failure}
use pcilibs_rs.Fsp.Knobs.{Channel, is_invalid_knob, knob_check_and_write}

abbrev pub History : Type 0
History = List (ℕ × ℕ)

unfoldable pub value : (ℕ → ℕ) → History → ℕ → ℕ
value initial [] k = initial k
value initial ((j, v) ∷ history) k =
    let earlier = value initial history k in if j == k then v else earlier

abbrev pub Predicate : Type 1
Predicate = History → Type 0

-- `known` are the knobs that the firmware has.
pub record IsStore {S : Type 0} (rpc : Channel S) (history : S → History) (initial : ℕ → ℕ)
    (known : ℕ → Bool) : Type 0 where
  pub read_keeps : (k : ℕ) (s : S) → history (rpc.knob_read k s).1 ≡ history s
  pub read_value :
      (k : ℕ) (s : S) (v : ℕ) → (rpc.knob_read k s).0 ≡ ok v → v ≡ value initial (history s) k
  pub read_unknown :
      (k : ℕ) (s : S) (e : Failure)
      → (rpc.knob_read k s).0 ≡ err e
      → is_invalid_knob e ≡ true
      → known k ≡ false
  pub read_known : (k : ℕ) (s : S) (v : ℕ) → (rpc.knob_read k s).0 ≡ ok v → known k ≡ true
  pub write_done :
      (k v : ℕ) (s : S)
      → (rpc.knob_write k v s).0 ≡ ok tt
      → history (rpc.knob_write k v s).1 ≡ (k, v) ∷ history s
  pub write_kept :
      (k v : ℕ) (s : S)
      → (history (rpc.knob_write k v s).1 ≡ history s)
        ⊎ (history (rpc.knob_write k v s).1 ≡ (k, v) ∷ history s)

module _ {S : Type 0} {rpc : Channel S} {history : S → History} {initial : ℕ → ℕ} {known : ℕ → Bool}
    (store : IsStore rpc history initial known) where
  pub Hoare-read :
      (P E : Predicate) (k : ℕ)
      → ((h : History) → P h → E h)
      → Hoare history P
          (rpc.knob_read k)
          (λ v h. P h × (v ≡ value initial h k) × (known k ≡ true))
          E
  Hoare-read P E k kept s p = elim (Result-cases (rpc.knob_read k s).0) [
    | inl (v, e) ↦
        rw e (rw (store.read_keeps k s) (p, store.read_value k s v e, store.read_known k s v e))
    | inr (x, e) ↦ rw e (rw (store.read_keeps k s) (kept _ p))
  ]

  pub Hoare-write :
      (P Q E : Predicate) (k v : ℕ)
      → ((h : History) → P h → Q ((k, v) ∷ h))
      → ((h : History) → P h → E h)
      → ((h : History) → Q h → E h)
      → Hoare history P (rpc.knob_write k v) (λ _. Q) E
  Hoare-write P Q E k v done kept failed s p = elim (Result-cases (rpc.knob_write k v s).0) [
    | inl (_, e) ↦ rw e (rw (store.write_done k v s e) (done _ p))
    | inr (x, e) ↦ rw e elim (store.write_kept k v s) [
      | inl same ↦ rw same (kept _ p)
      | inr wrote ↦ rw wrote (failed _ (done _ p))
    ]
  ]

  pub Hoare-check_and_write :
      (P Q E : Predicate) (k v : ℕ)
      → ((h : History) → P h → value initial h k ≡ v → Q h)
      → ((h : History) → P h → Q ((k, v) ∷ h))
      → ((h : History) → P h → E h)
      → ((h : History) → Q h → E h)
      → Hoare history P (knob_check_and_write rpc k v) (λ _. Q) E
  unfolding knob_check_and_write
  Hoare-check_and_write P Q E k v same done kept failed =
      Hoare-bind history P (rpc.knob_read k)
        (λ c h. P h × (c ≡ value initial h k) × (known k ≡ true)) _ (λ _. Q) E
        (Hoare-read P E k kept)
        (λ c. elim (Bool-cases (c == v)) [
          | inl e ↦ λ s p. rw e (same _ p.0 (let q = p.1 in ground arith))
          | inr e ↦ λ s p. rw e (Hoare-write P Q E k v done kept failed s p.0)
        ])

-- ===== src/Device.antt =====
-- src/pci_dev.rs: the registers of a device, and waiting for them. A `Machine` is the device, its
-- firmware and the clock: hardware, so a parameter of everything that talks to it.
mod Actions
pub mod Poll
mod Tests
pub use Actions.*
use pcilibs_rs.Prelude.{ℕ, Bool, true, false, not, ◌==◌, ok, []}
use pcilibs_rs.Prelude.{List, ◌∷◌, zero, suc}

-- `read32` may change the device: some registers are ports. The clock counts nanoseconds.
pub record Machine (S : Type 0) : Type 0 where
  pub read32 : ℕ → S → ℕ × S
  pub write32 : ℕ → ℕ → S → S
  pub now : S → ℕ
  pub sleep : ℕ → S → S

module _ {S : Type 0} (machine : Machine S) where
  abbrev pub read32 : ℕ → Action S ℕ
  read32 offset s = let r = machine.read32 offset s in (ok r.0, r.1)

  abbrev pub write32 : ℕ → ℕ → Action S (Unit {0})
  write32 offset value s = (ok tt, machine.write32 offset value s)

  -- `for &d in data { dev.write32(port, d) }`
  abbrev pub write_all : ℕ → List ℕ → Action S (Unit {0})
  write_all port [] = pure tt
  write_all port (d ∷ ds) = let rest = write_all port ds in write32 port d >> rest

  -- `(0..n).map(|_| dev.read32(port)).collect()`
  abbrev pub read_all : ℕ → ℕ → Action S (List ℕ)
  read_all port zero = pure []
  read_all port (suc n) = let rest = read_all port n in do d ← read32 port; ds ← rest; pure (d ∷ ds)

  -- The conditions that are polled: two registers read alike, or a register satisfies a test.
  abbrev pub reads_alike : ℕ → ℕ → S → Bool × S
  reads_alike a b s =
      let x = machine.read32 a s in let y = machine.read32 b x.1 in (x.0 == y.0, y.1)

  abbrev pub reads_as : ℕ → (ℕ → Bool) → S → Bool × S
  reads_as a test s = let x = machine.read32 a s in (test x.0, x.1)

-- ===== src/PciDev/Bar0/Tests.antt =====
-- A mapping of four dwords, over a memory that only keeps the addresses that were accessed.
use pcilibs_rs.Prelude.{ℕ, List, [], ◌∷◌, All, ◌≡◌, refl, ok, err, arith}
use pcilibs_rs.Files.{Files, no_files, panicked}
use pcilibs_rs.PciDev.Bar0.{Mapping, Memory, dword_at, map, read32, write32}
use pcilibs_rs.PciDev.Bar0.Inside.{
  Access, reading, writing, IsTraced, IsInside, is_ok, all_valid, run, run-IsInside,
}

abbrev traced : Memory (List ℕ)
traced = record { read_volatile = λ a s. (7, a ∷ s); write_volatile = λ a v s. a ∷ s }

traced-IsTraced : IsTraced traced (λ s. s)
traced-IsTraced = record { reads = λ a s. refl; writes = λ a v s. refl }

abbrev four_dwords : Mapping
four_dwords = record { ptr = 4096; len = 16 }

abbrev one_file : Files (List ℕ)
one_file = record (no_files (λ path text s. s)) {
  open_file = λ path s. ok tt;
  file_len = λ path s. ok 16;
}

map-four_dwords : map one_file (λ path len s. ok 4096) [] [] ≡ ok four_dwords
unfolding map
map-four_dwords = refl

-- The last dword is inside, the one behind it is not, and no access follows it.
abbrev accesses : List Access
accesses = reading 0 ∷ writing 12 5 ∷ reading 16 ∷ reading 4 ∷ []

run-accesses : run traced four_dwords accesses [] ≡ (err panicked, 4108 ∷ 4096 ∷ [])
unfolding run read32 write32 dword_at
run-accesses = refl

run-misaligned : (run traced four_dwords (reading 2 ∷ []) []) ≡ (err panicked, [])
unfolding run read32 dword_at
run-misaligned = refl

run-IsInside_example :
    All (IsInside four_dwords) (run traced four_dwords accesses []).1
    × (is_ok (run traced four_dwords accesses []).0 ≡ all_valid 16 accesses)
run-IsInside_example = run-IsInside traced four_dwords traced-IsTraced accesses [] (omega arith) tt

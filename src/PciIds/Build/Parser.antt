-- ===== src/PciIds/Build/Parser.antt =====
-- The module `parser` of build_support.rs, and what its parsers say by nom's documentation.
use pcilibs_rs.Prelude.{ℕ, [], ◌∷◌}
use pcilibs_rs.Text.{codes}
use pcilibs_rs.Text.Hex.{from_str_radix}
use pcilibs_rs.PciIds.Build.Packages.{Nom, Parser}

module _ (nom : Nom) where
  -- `bound` is that of the type whose `from_str_radix` is passed.
  unfoldable pub id : ℕ → ℕ → Parser ℕ
  id size bound =
      nom.map_res _ ℕ (nom.map_parser _ (nom.take size) (nom.all_consuming _ nom.hex_digit1))
        (from_str_radix bound)

  unfoldable pub vendor : Parser ℕ
  unfolding id
  vendor = nom.terminated _ _ (id 4 65536) (nom.tag (codes "  "))

  unfoldable pub device : Parser ℕ
  unfolding id
  device = nom.delimited _ _ _ nom.tab (id 4 65536) (nom.tag (codes "  "))

  unfoldable pub subsystems : Parser (ℕ × ℕ)
  unfolding id
  subsystems =
      nom.delimited _ _ _ (nom.tag (9 ∷ 9 ∷ []))
        (nom.separated_pair _ _ _ (id 4 65536) (nom.tag (codes " ")) (id 4 65536))
        (nom.tag (codes "  "))

  unfoldable pub class : Parser ℕ
  unfolding id
  class = nom.delimited _ _ _ (nom.tag (codes "C ")) (id 2 256) (nom.tag (codes "  "))

  unfoldable pub subclass : Parser ℕ
  unfolding id
  subclass = nom.delimited _ _ _ nom.tab (id 2 256) (nom.tag (codes "  "))

  unfoldable pub prog_if : Parser ℕ
  unfolding id
  prog_if = nom.delimited _ _ _ (nom.tag (9 ∷ 9 ∷ [])) (id 2 256) (nom.tag (codes "  "))

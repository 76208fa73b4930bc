-- ===== src/Text/Debug.antt =====
-- The `{:?}` format of a string, for ASCII.
use pcilibs_rs.Prelude.{ℕ, Bool, ◌||◌, ◌==◌, ltb, if◌then◌else◌, [], ◌∷◌, ◌++◌}
use pcilibs_rs.Text.{Bytes, codes}
use pcilibs_rs.Text.Decimal.{printed}

abbrev is_control : ℕ → Bool
is_control c = ltb c 0x20 || c == 0x7f

-- `char::escape_debug`, in a string: a single quote is not escaped.
unfoldable pub escape_debug : ℕ → Bytes
escape_debug c =
    if c == 0
    then codes "\\0"
    else if c == b'\t'
    then codes "\\t"
    else if c == b'\n'
    then codes "\\n"
    else if c == b'\r'
    then codes "\\r"
    else if c == b'"' || c == b'\\'
    then b'\\' ∷ c ∷ []
    else if is_control c
    then codes "\\u{" ++ printed 16 c ++ codes "}"
    else c ∷ []

unfoldable pub escaped : Bytes → Bytes
unfolding escape_debug
escaped [] = []
escaped (c ∷ s) = escape_debug c ++ escaped s

abbrev pub debug : Bytes → Bytes
debug s = b'"' ∷ escaped s ++ b'"' ∷ []

-- ===== src/Text.antt =====
-- The string operations of Rust's standard library that the crate uses, over bytes: `str::lines`,
-- `trim_ascii`, `split_ascii_whitespace`, `split`, `split_once`, `strip_prefix`, `==`.
pub mod Hex
pub mod Debug
pub mod Decimal
pub mod Ipv6
pub mod Equality
pub mod Split
use Prim.Native.Char.{code}
use Prim.Native.String.{String}
use pcilibs_rs.Prelude.{
  ℕ, Bool, true, false, ◌&&◌, ◌||◌, Option, none, some, List, [], ◌∷◌, ◌++◌, ◌==◌, if◌then◌else◌,
  is_empty,
}

abbrev pub Bytes : Type 0
Bytes = List ℕ

-- The bytes of an ASCII literal.
abbrev pub codes : String → Bytes
codes String.[] = []
codes (String.◌∷◌ c s) = code c ∷ codes s

-- `a == b` on strings
unfoldable pub equal : Bytes → Bytes → Bool
equal [] [] = true
equal (x ∷ xs) (y ∷ ys) = x == y && equal xs ys
equal _ _ = false

-- `u8::is_ascii_whitespace`: space, tab, line feed, form feed, carriage return
abbrev pub is_whitespace : ℕ → Bool
is_whitespace c = c == b' ' || c == 9 || c == 10 || c == 12 || c == 13

-- `strip_prefix`
unfoldable pub strip_prefix : Bytes → Bytes → Option Bytes
strip_prefix [] s = some s
strip_prefix (p ∷ ps) [] = none
strip_prefix (p ∷ ps) (c ∷ s) = elim (p == c) [ true ↦ strip_prefix ps s | false ↦ none ]

-- A line that a newline ends loses the carriage return before it.
strip_cr : Bytes → Bytes
strip_cr [] = []
strip_cr (c ∷ []) = if c == 13 then [] else c ∷ []
strip_cr (c ∷ d ∷ s) = c ∷ strip_cr (d ∷ s)

lines_from : Bytes → Bytes → List Bytes
lines_from line [] = if is_empty line then [] else line ∷ []
lines_from line (c ∷ s) = elim (c == 10) [
  | true ↦ strip_cr line ∷ lines_from [] s
  | false ↦ lines_from (line ++ c ∷ []) s
]

-- `str::lines`: what follows the last newline is a line only if it is not empty.
unfoldable pub lines : Bytes → List Bytes
unfolding lines_from strip_cr
lines s = lines_from [] s

trim_start : (ℕ → Bool) → Bytes → Bytes
trim_start white [] = []
trim_start white (c ∷ s) = let rest = trim_start white s in if white c then rest else c ∷ s

trim_end : (ℕ → Bool) → Bytes → Bytes
trim_end white [] = []
trim_end white (c ∷ s) =
    let rest = trim_end white s in if white c && is_empty rest then [] else c ∷ rest

-- `char::is_whitespace` of an ASCII character: the vertical tab counts as well.
abbrev pub is_white : ℕ → Bool
is_white c = is_whitespace c || c == 11

-- `trim_ascii`
unfoldable pub trim_ascii : Bytes → Bytes
unfolding trim_start trim_end
trim_ascii s = trim_end is_whitespace (trim_start is_whitespace s)

-- `str::trim` of an ASCII text
unfoldable pub trim : Bytes → Bytes
unfolding trim_start trim_end
trim s = trim_end is_white (trim_start is_white s)

abbrev flush : Bytes → List Bytes → List Bytes
flush [] rest = rest
flush (c ∷ word) rest = (c ∷ word) ∷ rest

words_from : (ℕ → Bool) → Bytes → Bytes → List Bytes
words_from white word [] = flush word []
words_from white word (c ∷ s) = elim (white c) [
  | true ↦ flush word (words_from white [] s)
  | false ↦ words_from white (word ++ c ∷ []) s
]

-- `split_whitespace` of an ASCII text
unfoldable pub split_whitespace : Bytes → List Bytes
unfolding words_from
split_whitespace s = words_from is_white [] s

-- `split_ascii_whitespace`
unfoldable pub split_ascii_whitespace : Bytes → List Bytes
unfolding words_from
split_ascii_whitespace s = words_from is_whitespace [] s

split_from : ℕ → Bytes → Bytes → List Bytes
split_from b field [] = field ∷ []
split_from b field (c ∷ s) = elim (c == b) [
  | true ↦ field ∷ split_from b [] s
  | false ↦ split_from b (field ++ c ∷ []) s
]

-- `split(b)`: one field more than there are separators
unfoldable pub split : ℕ → Bytes → List Bytes
unfolding split_from
split b s = split_from b [] s

split_once_from : ℕ → Bytes → Bytes → Option (Bytes × Bytes)
split_once_from b field [] = none
split_once_from b field (c ∷ s) = elim (c == b) [
  | true ↦ some (field, s)
  | false ↦ split_once_from b (field ++ c ∷ []) s
]

-- `split_once(b)`
unfoldable pub split_once : ℕ → Bytes → Option (Bytes × Bytes)
unfolding split_once_from
split_once b s = split_once_from b [] s

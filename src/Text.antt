-- ===== src/Text.antt =====
-- What the crate uses of `str` in the standard library.
pub mod Lines
pub mod Integers
use Prim.Native.Char.{Char, code}
use Prim.Native.String.{String, [], ◌∷◌, ◌++◌}
use modular_agent_core.Prelude.{
  ℕ, suc, Bool, true, false, not, ◌&&◌, ◌||◌, List, leb, nat_eq, if◌then◌else◌,
}
use mathlib.Core.List

abbrev pub is_empty : String → Bool
is_empty [] = true
is_empty (c ∷ s) = false

-- The characters with the property White_Space.
unfoldable pub is_whitespace : Char → Bool
is_whitespace c =
    let n = code c in
    (leb 9 n && leb n 13)
    || nat_eq n 32
    || nat_eq n 0x85
    || nat_eq n 0xa0
    || nat_eq n 0x1680
    || (leb 0x2000 n && leb n 0x200a)
    || nat_eq n 0x2028
    || nat_eq n 0x2029
    || nat_eq n 0x202f
    || nat_eq n 0x205f
    || nat_eq n 0x3000

unfoldable pub trim_start : String → String
unfolding is_whitespace
trim_start [] = []
trim_start (c ∷ s) = let later = trim_start s in if is_whitespace c then later else c ∷ s

unfoldable pub trim_end : String → String
unfolding is_whitespace
trim_end [] = []
trim_end (c ∷ s) =
    let later = trim_end s in if is_whitespace c && is_empty later then [] else c ∷ later

unfoldable pub trim : String → String
unfolding trim_start trim_end
trim s = trim_end (trim_start s)

abbrev pub is_newline : Char → Bool
is_newline c = nat_eq (code c) 10

abbrev pub newline : Char
newline = "\n"

-- `s[..s.rfind('\n') + 1]`, the empty text if there is no `\n`
unfoldable pub complete_part : String → String
complete_part [] = []
complete_part (c ∷ s) =
    let later = complete_part s in if is_newline c || not (is_empty later) then c ∷ later else []

starts_line_end : String → Bool
starts_line_end [] = false
starts_line_end (c ∷ s) = is_newline c

in_front : Char → List String → List String
in_front c List.[] = List.◌∷◌ (c ∷ []) List.[]
in_front c (List.◌∷◌ l ls) = List.◌∷◌ (c ∷ l) ls

-- `s.lines()`: a line ends at `\n` or `\r\n`, which is taken off.
unfoldable pub lines : String → List String
unfolding in_front starts_line_end
lines [] = List.[]
lines (c ∷ s) =
    let later = lines s in
    if is_newline c
    then List.◌∷◌ [] later
    else if nat_eq (code c) 13 && starts_line_end s
    then later
    else in_front c later

-- ===== src/Text/Lines.antt =====
-- Texts that are made of whole lines.
use Prim.Native.Char.{Char, code}
use Prim.Native.String.{String, [], ◌∷◌, ◌++◌}
use text.Mathlib.TextLemmas.{nil-append, cons-append}
use modular_agent_core.Prelude.{
  ◌≡◌, refl, ◌∙◌, Bool, true, false, not, ◌&&◌, List, Bool-cases, inl, inr, arith, nat_eq,
}
use modular_agent_core.Text.{is_newline, complete_part, lines, in_front, starts_line_end, newline}

-- Neither `\n` nor `\r` occurs.
abbrev pub is_one_line : String → Bool
is_one_line [] = true
is_one_line (c ∷ s) = not (is_newline c) && not (nat_eq (code c) 13) && is_one_line s

-- No `\n` occurs.
abbrev pub is_fragment : String → Bool
is_fragment [] = true
is_fragment (c ∷ s) = not (is_newline c) && is_fragment s

complete_part-cons :
    (c d : Char) (s r : String) → complete_part s ≡ d ∷ r → complete_part (c ∷ s) ≡ c ∷ d ∷ r
unfolding complete_part
complete_part-cons c d s r h =
    rw h (elim (Bool-cases (is_newline c)) [ inl e ↦ rw e | inr e ↦ rw e ])

-- A whole line belongs to the complete part.
pub complete_part-line :
    (l s : String) → complete_part (l ++ newline ∷ s) ≡ l ++ newline ∷ complete_part s
unfolding complete_part
complete_part-line [] s = rw (nil-append (newline ∷ s), nil-append (newline ∷ complete_part s)) refl
complete_part-line (c ∷ []) s =
    rw
      (
        cons-append c [] (newline ∷ s),
        cons-append c [] (newline ∷ complete_part s),
        nil-append (newline ∷ s),
        nil-append (newline ∷ complete_part s),
      )
      (complete_part-cons c newline (newline ∷ s) (complete_part s) refl)
complete_part-line (c ∷ d ∷ l) s =
    rw
      (
        cons-append c (d ∷ l) (newline ∷ s),
        cons-append c (d ∷ l) (newline ∷ complete_part s),
        cons-append d l (newline ∷ complete_part s),
      )
      (complete_part-cons c d ((d ∷ l) ++ newline ∷ s) (l ++ newline ∷ complete_part s)
        (complete_part-line (d ∷ l) s ∙ cons-append d l (newline ∷ complete_part s)))

-- An unfinished line does not.
pub complete_part-fragment : (s : String) → is_fragment s ≡ true → complete_part s ≡ []
unfolding complete_part
complete_part-fragment [] h = refl
complete_part-fragment (c ∷ s) h = rw (complete_part-fragment s (ground arith)) (ground arith)

lines-cons :
    (c : Char) (s l : String) (ls : List String)
    → is_newline c ≡ false
    → nat_eq (code c) 13 ≡ false
    → lines s ≡ List.◌∷◌ l ls
    → lines (c ∷ s) ≡ List.◌∷◌ (c ∷ l) ls
unfolding lines in_front starts_line_end
lines-cons c s l ls e e' h = rw (e, e', h) refl

pub lines-line :
    (l s : String) → is_one_line l ≡ true → lines (l ++ newline ∷ s) ≡ List.◌∷◌ l (lines s)
unfolding lines
lines-line [] s h = rw (nil-append (newline ∷ s)) refl
lines-line (c ∷ l) s h = rw (cons-append c l (newline ∷ s)) (
    lines-cons c (l ++ newline ∷ s) l (lines s) (ground arith) (ground arith)
      (lines-line l s (ground arith)))

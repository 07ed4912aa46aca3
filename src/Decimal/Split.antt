-- ===== src/Decimal/Split.antt =====
-- A printed number that something other than a digit follows can be told from what follows.
use Prim.Native.Char.{Char, code}
use Prim.Native.String.{String, [], ◌∷◌, ◌++◌}
use text.Mathlib.TextLemmas.{nil-append, cons-append}
use modular_agent_core.Prelude.{
  ℕ, zero, suc, ◌/◌, ◌%◌, ◌≡◌, refl, sym, ap, ◌∙◌, Bool, true, false, ◌&&◌, leb, nat_eq,
  if◌then◌else◌, Bool-cases, inl, inr,
}
use modular_agent_core.Decimal.{digit, emit, to_string, to_string-injective}

abbrev pub is_digit : Char → Bool
is_digit c = leb 48 (code c) && leb (code c) 57

abbrev AllDigits : String → Type 0
AllDigits [] = Unit
AllDigits (c ∷ s) = (is_digit c ≡ true) × AllDigits s

-- The text is empty, or begins with no digit.
abbrev pub NoDigitFirst : String → Type 0
NoDigitFirst [] = Unit
NoDigitFirst (c ∷ s) = is_digit c ≡ false

abbrev lead : String → String
lead [] = []
lead (c ∷ s) = let rest = lead s in if is_digit c then c ∷ rest else []

abbrev after : String → String
after [] = []
after (c ∷ s) = let rest = after s in if is_digit c then rest else c ∷ s

lead_self : (r : String) → NoDigitFirst r → lead r ≡ []
lead_self [] h = refl
lead_self (c ∷ s) h = rw h

after_self : (r : String) → NoDigitFirst r → after r ≡ r
after_self [] h = refl
after_self (c ∷ s) h = rw h

lead-append : (a r : String) → AllDigits a → NoDigitFirst r → lead (a ++ r) ≡ a
lead-append [] r d h = rw nil-append (lead_self r h)
lead-append (c ∷ a) r d h = rw cons-append (rw d.0 (ap (λ s. c ∷ s) (lead-append a r d.1 h)))

after-append : (a r : String) → AllDigits a → NoDigitFirst r → after (a ++ r) ≡ r
after-append [] r d h = rw nil-append (after_self r h)
after-append (c ∷ a) r d h = rw cons-append (rw d.0 (after-append a r d.1 h))

is_digit-digit : (n : ℕ) → is_digit (digit n) ≡ true
unfolding digit
is_digit-digit zero = refl
is_digit-digit (suc zero) = refl
is_digit-digit (suc (suc zero)) = refl
is_digit-digit (suc (suc (suc zero))) = refl
is_digit-digit (suc (suc (suc (suc zero)))) = refl
is_digit-digit (suc (suc (suc (suc (suc zero))))) = refl
is_digit-digit (suc (suc (suc (suc (suc (suc zero)))))) = refl
is_digit-digit (suc (suc (suc (suc (suc (suc (suc zero))))))) = refl
is_digit-digit (suc (suc (suc (suc (suc (suc (suc (suc zero)))))))) = refl
is_digit-digit (suc (suc (suc (suc (suc (suc (suc (suc (suc n))))))))) = refl

emit-AllDigits : (fuel n : ℕ) (out : String) → AllDigits out → AllDigits (emit fuel n out)
unfolding emit
emit-AllDigits zero n out d = d
emit-AllDigits (suc fuel) n out d = elim (Bool-cases (nat_eq (n / 10) 0)) [
  | inl e ↦ rw e (is_digit-digit (n % 10), d)
  | inr e ↦ rw e (emit-AllDigits fuel (n / 10) (digit (n % 10) ∷ out) (is_digit-digit (n % 10), d))
]

to_string-AllDigits : (n : ℕ) → AllDigits (to_string n)
unfolding to_string
to_string-AllDigits n = emit-AllDigits (suc n) n [] tt

-- A number and what follows it are read back from the text.
pub split_number :
    (m n : ℕ) (r t : String)
    → NoDigitFirst r
    → NoDigitFirst t
    → to_string m ++ r ≡ to_string n ++ t
    → (m ≡ n) × (r ≡ t)
split_number m n r t h k e = (
  to_string-injective m n (
      sym (lead-append (to_string m) r (to_string-AllDigits m) h)
      ∙ ap lead e
      ∙ lead-append (to_string n) t (to_string-AllDigits n) k),
  sym (after-append (to_string m) r (to_string-AllDigits m) h)
      ∙ ap after e
      ∙ after-append (to_string n) t (to_string-AllDigits n) k,
)

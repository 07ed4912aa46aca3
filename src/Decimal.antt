-- ===== src/Decimal.antt =====
-- `usize::to_string`: the decimal print of a number, by which id.rs makes ids and context.rs keys.
pub mod Split
use Prim.Native.Char.{Char, code}
use Prim.Native.String.{String, [], ◌∷◌}
use modular_agent_core.Prelude.{
  ℕ, zero, suc, ◌+◌, ◌-◌, ◌*◌, ◌/◌, ◌%◌, ◌<◌, ◌≡◌, refl, sym, ap, ◌∙◌, arith, nat_eq, Bool-cases,
  inl, inr, if◌then◌else◌,
}

digit : ℕ → Char
digit zero = "0"
digit (suc zero) = "1"
digit (suc (suc zero)) = "2"
digit (suc (suc (suc zero))) = "3"
digit (suc (suc (suc (suc zero)))) = "4"
digit (suc (suc (suc (suc (suc zero))))) = "5"
digit (suc (suc (suc (suc (suc (suc zero)))))) = "6"
digit (suc (suc (suc (suc (suc (suc (suc zero))))))) = "7"
digit (suc (suc (suc (suc (suc (suc (suc (suc zero)))))))) = "8"
digit _ = "9"

-- The last digit first; `fuel` above the number is enough.
emit : ℕ → ℕ → String → String
emit zero n out = out
emit (suc fuel) n out =
    let longer = digit (n % 10) ∷ out in
    let rest = emit fuel (n / 10) longer in if nat_eq (n / 10) 0 then longer else rest

unfoldable pub to_string : ℕ → String
unfolding digit emit
to_string n = emit (suc n) n []

value_from : ℕ → String → ℕ
value_from n [] = n
value_from n (c ∷ s) = value_from (n * 10 + (code c - 48)) s

code-digit : (d : ℕ) → d < 10 → code (digit d) - 48 ≡ d
unfolding digit
code-digit zero h = refl
code-digit (suc zero) h = refl
code-digit (suc (suc zero)) h = refl
code-digit (suc (suc (suc zero))) h = refl
code-digit (suc (suc (suc (suc zero)))) h = refl
code-digit (suc (suc (suc (suc (suc zero))))) h = refl
code-digit (suc (suc (suc (suc (suc (suc zero)))))) h = refl
code-digit (suc (suc (suc (suc (suc (suc (suc zero))))))) h = refl
code-digit (suc (suc (suc (suc (suc (suc (suc (suc zero)))))))) h = refl
code-digit (suc (suc (suc (suc (suc (suc (suc (suc (suc zero))))))))) h = refl
code-digit (suc (suc (suc (suc (suc (suc (suc (suc (suc (suc d)))))))))) h = absurd (omega arith)

value_from-digit :
    (m n : ℕ) (out : String)
    → m * 10 + n % 10 ≡ n
    → value_from m (digit (n % 10) ∷ out) ≡ value_from n out
unfolding value_from
value_from-digit m n out e =
    ap (λ k. value_from k out) (omega (arith, code-digit (n % 10) (omega arith)))

value_from-emit :
    (fuel n : ℕ) (out : String) → n < fuel → value_from 0 (emit fuel n out) ≡ value_from n out
unfolding emit
value_from-emit zero n out h = absurd (omega arith)
value_from-emit (suc fuel) n out h = elim (Bool-cases (nat_eq (n / 10) 0)) [
  | inl e ↦ rw e (value_from-digit 0 n out (ground arith))
  | inr e ↦ rw e (
      value_from-emit fuel (n / 10) (digit (n % 10) ∷ out) (ground arith)
      ∙ value_from-digit (n / 10) n out (omega arith))
]

pub value : String → ℕ
value s = value_from 0 s

-- The print can be read back.
pub value-to_string : (n : ℕ) → value (to_string n) ≡ n
unfolding value to_string value_from
value-to_string n = value_from-emit (suc n) n [] (omega arith)

pub to_string-injective : (m n : ℕ) → to_string m ≡ to_string n → m ≡ n
to_string-injective m n e = sym (value-to_string m) ∙ ap value e ∙ value-to_string n

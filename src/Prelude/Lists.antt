-- ===== src/Prelude/Lists.antt =====
-- Lists with Boolean tests and native numbers.
use Prim.Native.Nat.{ℕ, zero, suc, ◌+◌}
use mathlib.Core.Path.{◌≡◌, refl, ap}
use mathlib.Core.Bool.{Bool, true, false, ◌&&◌, ◌||◌}
use mathlib.Core.Option.{Option, none, some}
use mathlib.Core.List.{List, [], ◌∷◌, ◌++◌}
use native.Mathlib.Omega.{arith}
use modular_agent_core.Prelude.Tests.{if◌then◌else◌, nat_eq, ltb}

module _ {ℓ} {A : Type ℓ} where
  abbrev pub length : List A → ℕ
  length [] = 0
  length (x ∷ xs) = suc (length xs)

  abbrev pub All {κ} : (A → Type κ) → List A → Type κ
  All P [] = Unit
  All P (x ∷ xs) = P x × All P xs

  -- `iter().any(p)`
  abbrev pub any : (A → Bool) → List A → Bool
  any p [] = false
  any p (x ∷ xs) = p x || any p xs

  -- `iter().all(p)`
  abbrev pub all : (A → Bool) → List A → Bool
  all p [] = true
  all p (x ∷ xs) = p x && all p xs

  -- `retain(p)`
  abbrev pub retain : (A → Bool) → List A → List A
  retain p [] = []
  retain p (x ∷ xs) = let rest = retain p xs in if p x then x ∷ rest else rest

  pub any-append : (p : A → Bool) (xs ys : List A) → any p (xs ++ ys) ≡ (any p xs || any p ys)
  any-append p [] ys = refl
  any-append p (x ∷ xs) ys = ground (arith, any-append p xs ys)

  pub length-append : (xs ys : List A) → length (xs ++ ys) ≡ length xs + length ys
  length-append [] ys = omega arith
  length-append (x ∷ xs) ys = omega (arith, length-append xs ys)

  -- Where the kept test has one value on all that passes the other, it factors out.
  pub any-retain :
      (q p : A → Bool) (b : Bool) (xs : List A)
      → ((x : A) → q x ≡ true → p x ≡ b)
      → any q (retain p xs) ≡ (b && any q xs)
  any-retain q p b [] h = ground arith
  any-retain q p b (x ∷ xs) h = ground (arith, h x, any-retain q p b xs h)

module _ {ℓ} {A : Type ℓ} where
  abbrev pub get_elem? : List A → ℕ → Option A
  get_elem? [] n = none
  get_elem? (x ∷ l) zero = some x
  get_elem? (x ∷ l) (suc n) = get_elem? l n

  -- `l[n] = y`, nothing out of range
  abbrev pub set_elem : List A → ℕ → A → List A
  set_elem [] n y = []
  set_elem (x ∷ l) zero y = y ∷ l
  set_elem (x ∷ l) (suc n) y = x ∷ set_elem l n y

  abbrev pub take : ℕ → List A → List A
  take zero l = []
  take (suc n) [] = []
  take (suc n) (x ∷ l) = x ∷ take n l

  pub get_elem?-set_elem :
      (l : List A) (n k : ℕ) (y : A)
      → get_elem? (set_elem l n y) k
        ≡ (if nat_eq n k && ltb n (length l) then some y else get_elem? l k)
  get_elem?-set_elem [] n k y = ground arith
  get_elem?-set_elem (x ∷ l) zero zero y = ground arith
  get_elem?-set_elem (x ∷ l) zero (suc k) y = ground arith
  get_elem?-set_elem (x ∷ l) (suc n) zero y = ground arith
  get_elem?-set_elem (x ∷ l) (suc n) (suc k) y = ground (arith, get_elem?-set_elem l n k y)

  pub get_elem?-bound :
      (l : List A) (n : ℕ) (x : A) → get_elem? l n ≡ some x → ltb n (length l) ≡ true
  get_elem?-bound [] n x h = ground arith
  get_elem?-bound (y ∷ l) zero x h = ground arith
  get_elem?-bound (y ∷ l) (suc n) x h = ground (arith, get_elem?-bound l n x h)

  pub append_assoc : (l k m : List A) → (l ++ k) ++ m ≡ l ++ (k ++ m)
  append_assoc [] k m = refl
  append_assoc (y ∷ l) k m = ap (λ r. y ∷ r) (append_assoc l k m)

  pub append-nil : (l : List A) → l ++ [] ≡ l
  append-nil [] = refl
  append-nil (y ∷ l) = ap (λ r. y ∷ r) (append-nil l)

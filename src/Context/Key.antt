-- ===== src/Context/Key.antt =====
-- `ctx_key` of context.rs tells contexts apart.
use Prim.Native.String.{◌++◌ as append, ◌∷◌ as char_in_front}
use text.Mathlib.TextLemmas.{append-nil, append_assoc, cons-append}
use modular_agent_core.Prelude.{ℕ, String, ◌≡◌, refl, sym, ◌∙◌, List, [], ◌∷◌}
use modular_agent_core.Decimal.{to_string}
use modular_agent_core.Decimal.Split.{NoDigitFirst, split_number}
use modular_agent_core.Error.{ok}
use modular_agent_core.Context.{AgentContext, part, join_parts, key_of, map_frame_indices, ctx_key}

more : List (ℕ × ℕ) → String
more [] = ""
more (q ∷ l) = char_in_front "," (join_parts q l)

more-NoDigitFirst : (l : List (ℕ × ℕ)) → NoDigitFirst (more l)
unfolding more
more-NoDigitFirst [] = tt
more-NoDigitFirst (q ∷ l) = refl

join_parts-eq :
    (i n : ℕ) (l : List (ℕ × ℕ))
    → join_parts (i, n) l ≡ append (to_string i) (char_in_front ":" (append (to_string n) (more l)))
unfolding join_parts part more
join_parts-eq i n [] = rw (append-nil (to_string n)) refl
join_parts-eq i n (q ∷ l) = simp (append_assoc, cons-append)

tail-eq :
    {c d : Prim.Native.Char.Char} {s t : String} → char_in_front c s ≡ char_in_front d t → s ≡ t
tail-eq e = cc

join_parts-split :
    (p q : ℕ × ℕ) (l k : List (ℕ × ℕ))
    → join_parts p l ≡ join_parts q k
    → (p ≡ q) × (more l ≡ more k)
join_parts-split (i, n) (j, m) l k e =
    let (same_index, r) =
      split_number i j _ _ refl refl (sym (join_parts-eq i n l) ∙ e ∙ join_parts-eq j m k) in
    let (same_length, t) =
      split_number n m (more l) (more k) (more-NoDigitFirst l) (more-NoDigitFirst k) (tail-eq r) in
    (cc, t)

more-injective : (l k : List (ℕ × ℕ)) → more l ≡ more k → l ≡ k
unfolding more
more-injective [] [] e = refl
more-injective [] (q ∷ k) e = cc
more-injective (p ∷ l) [] e = cc
more-injective (p ∷ l) (q ∷ k) e =
    let (same, rest) = join_parts-split p q l k (tail-eq e) in cc (more-injective l k rest)

-- The text after the id.
suffix : List (ℕ × ℕ) → String
suffix [] = ""
suffix (p ∷ l) = char_in_front ":" (join_parts p l)

suffix-NoDigitFirst : (l : List (ℕ × ℕ)) → NoDigitFirst (suffix l)
unfolding suffix
suffix-NoDigitFirst [] = tt
suffix-NoDigitFirst (q ∷ l) = refl

suffix-injective : (l k : List (ℕ × ℕ)) → suffix l ≡ suffix k → l ≡ k
unfolding suffix
suffix-injective [] [] e = refl
suffix-injective [] (q ∷ k) e = cc
suffix-injective (p ∷ l) [] e = cc
suffix-injective (p ∷ l) (q ∷ k) e =
    let (same, rest) = join_parts-split p q l k (tail-eq e) in cc (more-injective l k rest)

key_of-eq : (id : ℕ) (l : List (ℕ × ℕ)) → key_of id l ≡ append (to_string id) (suffix l)
unfolding key_of suffix
key_of-eq id [] = sym (append-nil (to_string id))
key_of-eq id (p ∷ l) = refl

-- Two contexts whose keys are equal have the same id and the same map frame indices.
pub ctx_key-injective :
    (ctx ctx' : AgentContext) (l k : List (ℕ × ℕ)) (key : String)
    → map_frame_indices ctx ≡ ok l
    → map_frame_indices ctx' ≡ ok k
    → ctx_key ctx ≡ ok key
    → ctx_key ctx' ≡ ok key
    → (ctx.id ≡ ctx'.id) × (l ≡ k)
unfolding ctx_key
ctx_key-injective ctx ctx' l k key hl hk e e' =
    let same : key_of ctx.id l ≡ key_of ctx'.id k = cc in
    let (ids, rest) =
      split_number ctx.id ctx'.id (suffix l) (suffix k) (suffix-NoDigitFirst l)
        (suffix-NoDigitFirst k) (sym (key_of-eq ctx.id l) ∙ same ∙ key_of-eq ctx'.id k) in
    (ids, suffix-injective l k rest)

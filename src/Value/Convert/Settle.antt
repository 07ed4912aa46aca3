-- ===== src/Value/Convert/Settle.antt =====
-- A value that was converted stays as it is when it is converted again.
use mathlib.Core.Path.{subst}
use modular_agent_core.Prelude.{
  ℕ, String, ◌≡◌, refl, sym, ap, ◌∙◌, Bool, true, false, Bool-cases, Option-cases, inl, inr, Option,
  none, some,
}
use modular_agent_core.Prelude.Int.{ℤ}
use modular_agent_core.Value.{AgentValue, Values}
use modular_agent_core.Value.Convert.{
  Floats, is_boolean, is_integer, is_number, is_string, to_boolean, to_integer, to_number,
  to_string, all_are, wrap, joined, convert_unless, to_kind, to_kinds, of_boolean, of_integer,
  of_number, of_string, to_boolean_value, to_integer_value, to_number_value, to_string_value,
}

module _ (is : AgentValue → Bool) (convert : AgentValue → Option AgentValue)
    (no_array : (vs : Values) → is (AgentValue.array vs) ≡ false)
    (converts : (v w : AgentValue) → convert v ≡ some w → is w ≡ true) where
  kind-stays : (w : AgentValue) → is w ≡ true → to_kind is convert w ≡ some w
  unfolding to_kind convert_unless
  kind-stays AgentValue.unit e = rw e refl
  kind-stays (AgentValue.boolean b) e = rw e refl
  kind-stays (AgentValue.integer b) e = rw e refl
  kind-stays (AgentValue.number b) e = rw e refl
  kind-stays (AgentValue.string b) e = rw e refl
  kind-stays (AgentValue.image b) e = rw e refl
  kind-stays (AgentValue.array vs) e = let no = no_array vs in absurd (cc)
  kind-stays (AgentValue.object b) e = rw e refl
  kind-stays (AgentValue.tensor b) e = rw e refl
  kind-stays (AgentValue.message b) e = rw e refl
  kind-stays (AgentValue.error b) e = rw e refl

  convert_unless-settles :
      (v w : AgentValue) → convert_unless is convert v ≡ some w → to_kind is convert w ≡ some w
  unfolding convert_unless
  convert_unless-settles v w = elim (Bool-cases (is v)) [
    | inl e ↦ rw e (λ h. kind-stays w (let same : v ≡ w = cc in ap is (sym same) ∙ e))
    | inr e ↦ rw e (λ h. kind-stays w (converts v w h))
  ]

  array-settles :
      (ws : Values)
      → to_kinds is convert ws ≡ some ws
      → to_kind is convert (AgentValue.array ws) ≡ some (AgentValue.array ws)
  unfolding to_kind wrap
  array-settles ws e = elim (Bool-cases (all_are is ws)) [
    | inl all ↦ rw all refl
    | inr some_not ↦ rw (some_not, e) refl
  ]

  all_are-settles :
      (vs : Values)
      → all_are is vs ≡ true
      → to_kind is convert (AgentValue.array vs) ≡ some (AgentValue.array vs)
  unfolding to_kind
  all_are-settles vs e = rw e refl

  mutual
    unfolding to_kind to_kinds wrap joined

    settles : (v w : AgentValue) → to_kind is convert v ≡ some w → to_kind is convert w ≡ some w
    settles AgentValue.unit w h = convert_unless-settles _ w h
    settles (AgentValue.boolean b) w h = convert_unless-settles _ w h
    settles (AgentValue.integer b) w h = convert_unless-settles _ w h
    settles (AgentValue.number b) w h = convert_unless-settles _ w h
    settles (AgentValue.string b) w h = convert_unless-settles _ w h
    settles (AgentValue.image b) w h = convert_unless-settles _ w h
    settles (AgentValue.array vs) w h = elim (Bool-cases (all_are is vs)) [
      | inl all ↦
          let e = all_are-settles vs all in
          let same : AgentValue.array vs ≡ w = cc in
          subst (λ u. to_kind is convert u ≡ some u) same e
      | inr some_not ↦ elim (Option-cases (to_kinds is convert vs)) [
        | inl failed ↦
            let e : to_kind is convert (AgentValue.array vs) ≡ none = rw (some_not, failed) refl in
            absurd (cc)
        | inr (ws, found) ↦
            let e : to_kind is convert (AgentValue.array vs) ≡ some (AgentValue.array ws) =
              rw (some_not, found) refl in
            let same : AgentValue.array ws ≡ w = cc in
            subst (λ u. to_kind is convert u ≡ some u) same
              (array-settles ws (all-settle vs ws found))
      ]
    ]
    settles (AgentValue.object b) w h = convert_unless-settles _ w h
    settles (AgentValue.tensor b) w h = convert_unless-settles _ w h
    settles (AgentValue.message b) w h = convert_unless-settles _ w h
    settles (AgentValue.error b) w h = convert_unless-settles _ w h

    all-settle :
        (vs ws : Values) → to_kinds is convert vs ≡ some ws → to_kinds is convert ws ≡ some ws
    all-settle Values.nil ws h =
        let same : Values.nil ≡ ws = cc in subst (λ u. to_kinds is convert u ≡ some u) same refl
    all-settle (Values.cons v vs) ws h = elim (Option-cases (to_kind is convert v)) [
      | inl failed ↦
          let e : to_kinds is convert (Values.cons v vs) ≡ none = rw failed refl in absurd (cc)
      | inr (u, first) ↦ elim (Option-cases (to_kinds is convert vs)) [
        | inl failed ↦
            let e : to_kinds is convert (Values.cons v vs) ≡ none = rw (first, failed) refl in
            absurd (cc)
        | inr (us, rest) ↦
            let e : to_kinds is convert (Values.cons v vs) ≡ some (Values.cons u us) =
              rw (first, rest) refl in
            let same : Values.cons u us ≡ ws = cc in
            subst (λ l. to_kinds is convert l ≡ some l) same
              (rw (settles v u first, all-settle vs us rest) refl)
      ]
    ]

of_integer-is_integer :
    (o : Option ℤ) (w : AgentValue) → of_integer o ≡ some w → is_integer w ≡ true
unfolding of_integer
of_integer-is_integer none w h = absurd (cc)
of_integer-is_integer (some i) w h =
    let same : AgentValue.integer i ≡ w = cc in sym (ap is_integer same)

of_boolean-is_boolean :
    (o : Option Bool) (w : AgentValue) → of_boolean o ≡ some w → is_boolean w ≡ true
unfolding of_boolean
of_boolean-is_boolean none w h = absurd (cc)
of_boolean-is_boolean (some i) w h =
    let same : AgentValue.boolean i ≡ w = cc in sym (ap is_boolean same)

of_number-is_number : (o : Option ℕ) (w : AgentValue) → of_number o ≡ some w → is_number w ≡ true
unfolding of_number
of_number-is_number none w h = absurd (cc)
of_number-is_number (some i) w h =
    let same : AgentValue.number i ≡ w = cc in sym (ap is_number same)

of_string-is_string :
    (o : Option String) (w : AgentValue) → of_string o ≡ some w → is_string w ≡ true
unfolding of_string
of_string-is_string none w h = absurd (cc)
of_string-is_string (some i) w h =
    let same : AgentValue.string i ≡ w = cc in sym (ap is_string same)

-- What `to_boolean_value` gives stays when it is converted again.
pub to_boolean_value-again :
    (v w : AgentValue) → to_boolean_value v ≡ some w → to_boolean_value w ≡ some w
unfolding to_boolean_value
to_boolean_value-again v w h =
    settles is_boolean (λ u. of_boolean (to_boolean u)) (λ vs. refl)
      (λ u x e. of_boolean-is_boolean (to_boolean u) x e) v w h

-- What `to_integer_value` gives, of a value or of an array nested to any depth, is left as it is when
-- it is converted again.
pub to_integer_value-again :
    (v w : AgentValue) → to_integer_value v ≡ some w → to_integer_value w ≡ some w
unfolding to_integer_value
to_integer_value-again v w h =
    settles is_integer (λ u. of_integer (to_integer u)) (λ vs. refl)
      (λ u x e. of_integer-is_integer (to_integer u) x e) v w h

-- What `to_number_value` gives stays when it is converted again.
pub to_number_value-again :
    (floats : Floats) (v w : AgentValue)
    → to_number_value floats v ≡ some w
    → to_number_value floats w ≡ some w
unfolding to_number_value
to_number_value-again floats v w h =
    settles is_number (λ u. of_number (to_number floats u)) (λ vs. refl)
      (λ u x e. of_number-is_number (to_number floats u) x e) v w h

-- What `to_string_value` gives stays when it is converted again.
pub to_string_value-again :
    (floats : Floats) (v w : AgentValue)
    → to_string_value floats v ≡ some w
    → to_string_value floats w ≡ some w
unfolding to_string_value
to_string_value-again floats v w h =
    settles is_string (λ u. of_string (to_string floats u)) (λ vs. refl)
      (λ u x e. of_string-is_string (to_string floats u) x e) v w h

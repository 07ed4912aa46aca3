-- ===== src/Runtime/Contexts/Live.antt =====
-- The token of a flow stays in the table while a context of the flow holds it, and is the one aborted.
use modular_agent_core.Prelude.{
  ℕ, ◌≡◌, Bool, true, some, Bool-cases, inl, inr, List, [], ◌∷◌, ◌++◌, arith, nat_eq, retain,
  if◌then◌else◌,
}
use modular_agent_core.Cancel
use modular_agent_core.Runtime.{ModularAgent}
use modular_agent_core.Runtime.Contexts.{
  token_of, put_token, prune, token_or_new, context_token, abort_token, abort_context,
}

token_of-put_token :
    (ctx_id j t : ℕ) (l : List (ℕ × ℕ))
    → token_of j (put_token ctx_id t l) ≡ (if nat_eq ctx_id j then some t else token_of j l)
unfolding token_of put_token
token_of-put_token ctx_id j t [] = ground arith
token_of-put_token ctx_id j t ((id, old) ∷ l) = ground (arith, token_of-put_token ctx_id j t l)

module _ (alive : ℕ → Bool) where
  token_of-retain :
      (j t : ℕ) (l : List (ℕ × ℕ))
      → token_of j l ≡ some t
      → alive t ≡ true
      → token_of j (retain (λ entry. alive entry.1) l) ≡ some t
  unfolding token_of
  token_of-retain j t [] h a = ground arith
  token_of-retain j t ((id, old) ∷ l) h a = elim (Bool-cases (nat_eq id j)) [
    | inl e ↦ ground (arith, h, a)
    | inr e ↦ ground (arith, h, a, token_of-retain j t l)
  ]

  token_of-prune :
      (j t : ℕ) (l : List (ℕ × ℕ))
      → token_of j l ≡ some t
      → alive t ≡ true
      → token_of j (prune alive l) ≡ some t
  unfolding prune
  token_of-prune j t l h a = ground (arith, h, token_of-retain j t l h a)

  -- While a context of a flow holds the token of the flow, the table keeps that token for the flow,
  -- whatever flow asks for its token next and however full the table is.
  pub context_token-live :
      (ctx_id j t : ℕ) (ma : ModularAgent)
      → token_of j ma.context_tokens ≡ some t
      → alive t ≡ true
      → token_of j (context_token alive ctx_id ma).1.context_tokens ≡ some t
  unfolding context_token token_or_new Cancel.create
  context_token-live ctx_id j t ma h a = elim (Bool-cases (nat_eq ctx_id j)) [
    | inl e ↦ let same : ctx_id ≡ j = ground (arith, e) in ground (arith, h, a)
    | inr e ↦ ground (
      arith,
      h,
      token_of-put_token ctx_id j ma.tokens.next (prune alive ma.context_tokens),
      token_of-prune j t ma.context_tokens h a,
    )
  ]

  token_of-context_token :
      (ctx_id : ℕ) (ma : ModularAgent)
      → token_of ctx_id (context_token alive ctx_id ma).1.context_tokens
        ≡ some (context_token alive ctx_id ma).0
  unfolding context_token token_or_new Cancel.create
  token_of-context_token ctx_id ma =
      ground
        (arith, token_of-put_token ctx_id ctx_id ma.tokens.next (prune alive ma.context_tokens))

  -- Aborting a flow whose context holds the token that it was given reports success and fires that
  -- token and no other.
  pub abort_context-context_token :
      (later : ℕ → Bool) (ctx_id : ℕ) (ma : ModularAgent)
      → later (context_token alive ctx_id ma).0 ≡ true
      → ((abort_context later ctx_id (context_token alive ctx_id ma).1).0 ≡ true)
        × ((abort_context later ctx_id (context_token alive ctx_id ma).1).1.tokens.fired
            ≡ (context_token alive ctx_id ma).1.tokens.fired
              ++ (context_token alive ctx_id ma).0 ∷ [])
  unfolding abort_context abort_token Cancel.cancel
  abort_context-context_token later ctx_id ma h =
      let found = token_of-context_token ctx_id ma in
      (ground (arith, h, found), ground (arith, h, found))

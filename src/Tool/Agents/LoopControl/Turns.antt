-- ===== src/Tool/Agents/LoopControl/Turns.antt =====
-- `LoopControlAgent` lets through as many turns of a flow as its limit says.
use mathlib.Core.Path.{subst}
use modular_agent_core.Prelude.{
  ℕ, suc, ◌+◌, ◌≤◌, ◌<◌, String, ◌≡◌, refl, sym, ap, ◌∙◌, true, false, not, ◌&&◌, Bool-cases, inl,
  inr, Option, none, some, List, [], ◌∷◌, ltb, leb, arith, ◌==◌, if◌then◌else◌,
}
use modular_agent_core.Prelude.Int.{ℤ, pos}
use modular_agent_core.Error.{Result, ok, err, Result-cases}
use modular_agent_core.Value.{AgentValue}
use modular_agent_core.Context.{AgentContext, ctx_key}
use modular_agent_core.Spec.{AgentConfigs, get_integer_or}
use modular_agent_core.Tool.Tracker.{max_tracked_ctx_keys, entry_of, entry_of-keep_entry, IsTracked}
use modular_agent_core.Tool.Tracker.Behind.{
  behind, behind-absent, behind-own, Kept, keep_entry-Kept,
}
use modular_agent_core.Tool.Tracker.Flows.{in_flow, others, of_flow, in_flow-apart, in_flow-keyed}
use modular_agent_core.Tool.Agents.{Hooked, required}
use modular_agent_core.Tool.Agents.LoopControl.{
  Counts, or_new, max_u32, saturating_succ, is_countable, message_id, is_redelivery, exceeds,
  limit_notice, chosen, count_turn, process_chosen, process,
}
use modular_agent_core.Tool.Agents.LoopControl.Bounds.{process-counts}
use modular_agent_core.Tool.Agents.LoopControl.Verdict.{
  Turns, no_turns, asks_for_tools, id_of, same_turn, add_turn, turns_of, verdict, is_countable-asks,
  message_id-id_of, is_redelivery-same,
}

abbrev pub deliver : Option AgentConfigs → Counts → List (AgentContext × AgentValue) → Counts
deliver configs counts [] = counts
deliver configs counts ((ctx, value) ∷ inputs) =
    deliver configs (process configs counts ctx value).1 inputs

-- The agent's entry is the number of turns, as far as a `u32` counts.
abbrev Counted : String → Counts → Turns → Type 0
Counted key counts seen =
    (or_new (entry_of counts key) ≡ ((if ltb seen.0 max_u32 then seen.0 else max_u32), seen.1))

abbrev Step : ℕ → String → AgentContext → Turns → AgentValue → Hooked Counts → Type 0
Step limit key ctx seen value r =
    Counted key r.1 (add_turn seen value) × (r.2 ≡ verdict limit ctx seen value)

abbrev cap : ℕ → ℕ
cap n = if ltb n max_u32 then n else max_u32

cap-suc : (n : ℕ) → (if ltb (cap n) max_u32 then suc (cap n) else max_u32) ≡ cap (suc n)
cap-suc n = ground arith

-- The count tells whether the limit is exceeded.
cap-exceeds :
    (limit n : ℕ)
    → 1 ≤ limit
    → limit < max_u32
    → (ltb 0 limit && ltb limit (cap n)) ≡ not (leb n limit)
cap-exceeds limit n positive small = ground arith

module _ (limit : ℕ) (key : String) (ctx : AgentContext) (positive : 1 ≤ limit)
    (small : limit < max_u32) where
  count_turn-Step :
      (counts : Counts) (seen : Turns) (value : AgentValue)
      → Counted key counts seen
      → asks_for_tools value ≡ true
      → Step limit key ctx seen value (count_turn (pos limit) key counts ctx value)
  unfolding count_turn exceeds saturating_succ limit_notice
  count_turn-Step counts seen value h c =
      let same = is_redelivery-same (id_of value) seen.1 in
      elim (Bool-cases (same_turn (id_of value) seen.1)) [
        | inl again ↦
            rw (message_id-id_of value, h, same, c, again)
              (h, ground (arith, cap-exceeds limit seen.0 positive small))
        | inr fresh ↦
            rw (message_id-id_of value, h, same, c, fresh)
              (
                rw (entry_of-keep_entry counts key (saturating_succ (cap seen.0), id_of value))
                    (ap (λ n. (n, id_of value)) (cap-suc seen.0)),
                rw (cap-suc seen.0) (ground (arith, cap-exceeds limit (suc seen.0) positive small)),
              )
      ]

  -- A message of the flow itself brings no other flow behind it.
  count_turn-behind :
      (counts : Counts) (value : AgentValue)
      → IsTracked counts
      → behind (count_turn (pos limit) key counts ctx value).1.ctx_key_order key
        ≤ behind counts.ctx_key_order key
  unfolding count_turn
  count_turn-behind counts value tracked =
      elim (Bool-cases (is_redelivery (message_id value) (or_new (entry_of counts key)).1)) [
        | inl again ↦ rw again (omega arith)
        | inr fresh ↦ rw fresh (behind-own counts key _ tracked)
      ]

  module _ (configs : AgentConfigs)
      (limited : get_integer_or configs "max_iterations" (pos 25) ≡ pos limit) where
    process-count_turn :
        (counts : Counts) (value : AgentValue)
        → ctx_key ctx ≡ ok key
        → is_countable value ≡ true
        → process (some configs) counts ctx value ≡ count_turn (pos limit) key counts ctx value
    unfolding process chosen process_chosen
    process-count_turn counts value keyed c = rw (c, keyed, limited) refl

    process-Step :
        (counts : Counts) (seen : Turns) (value : AgentValue)
        → ctx_key ctx ≡ ok key
        → Counted key counts seen
        → Step limit key ctx seen value (process (some configs) counts ctx value)
    unfolding process
    process-Step counts seen value keyed h =
        let asks = is_countable-asks value in
        elim (Bool-cases (asks_for_tools value)) [
          | inl c ↦
              subst (Step limit key ctx seen value)
                (sym (process-count_turn counts value keyed (asks ∙ c)))
                (count_turn-Step counts seen value h c)
          | inr c ↦ rw (asks, c) (h, refl)
        ]

    process-behind :
        (counts : Counts) (value : AgentValue)
        → ctx_key ctx ≡ ok key
        → IsTracked counts
        → behind (process (some configs) counts ctx value).1.ctx_key_order key
          ≤ behind counts.ctx_key_order key
    unfolding process
    process-behind counts value keyed tracked = elim (Bool-cases (is_countable value)) [
      | inl c ↦
          subst
            (λ (r : Hooked Counts). behind r.1.ctx_key_order key ≤ behind counts.ctx_key_order key)
            (sym (process-count_turn counts value keyed c)) (count_turn-behind counts value tracked)
      | inr c ↦ rw c (omega arith)
    ]

-- A value of another flow.
module _ (key : String) (ctx : AgentContext) (out : in_flow key ctx ≡ false) (counts : Counts)
    (near : suc (behind counts.ctx_key_order key) < max_tracked_ctx_keys) (value : AgentValue) where
  count_turn-Kept :
      (limit : ℤ) (k : String)
      → (k == key) ≡ false
      → Kept key counts (count_turn limit k counts ctx value).1
  unfolding count_turn
  count_turn-Kept limit k apart =
      elim (Bool-cases (is_redelivery (message_id value) (or_new (entry_of counts k)).1)) [
        | inl again ↦ rw again (refl, omega arith)
        | inr fresh ↦ rw fresh (keep_entry-Kept counts key k _ apart near)
      ]

  process_chosen-Kept :
      (r : Result (ℤ × String))
      → ((limit : ℤ) (k : String) → r ≡ ok (limit, k) → (k == key) ≡ false)
      → Kept key counts (process_chosen r counts ctx value).1
  unfolding process_chosen
  process_chosen-Kept (err e) h = (refl, omega arith)
  process_chosen-Kept (ok (limit, k)) h = count_turn-Kept limit k (h limit k refl)

  chosen-apart :
      (configs : Option AgentConfigs) (limit : ℤ) (k : String)
      → chosen configs ctx ≡ ok (limit, k)
      → (k == key) ≡ false
  unfolding chosen
  chosen-apart configs limit k = elim (Result-cases (required configs)) [
    | inl (e, none_given) ↦ rw none_given (λ h. absurd (cc))
    | inr (c, given) ↦ rw given (elim (Result-cases (ctx_key ctx)) [
      | inl (e, refused) ↦ rw refused (λ h. absurd (cc))
      | inr (own, keyed) ↦ rw keyed (λ h.
          let same : own ≡ k = cc in
          subst (λ j. (j == key) ≡ false) same (in_flow-apart key own ctx out keyed))
    ])
  ]

  process-Kept :
      (configs : Option AgentConfigs) → Kept key counts (process configs counts ctx value).1
  unfolding process
  process-Kept configs = elim (Bool-cases (is_countable value)) [
    | inl c ↦ rw c (process_chosen-Kept (chosen configs ctx) (chosen-apart configs))
    | inr c ↦ rw c (refl, omega arith)
  ]

-- The entry of the flow is right, and stays while at most `n` values of other flows come.
abbrev Follows : String → ℕ → Counts → Turns → Type 0
Follows key n counts seen =
    IsTracked counts
    × Counted key counts seen
    × (behind counts.ctx_key_order key + n < max_tracked_ctx_keys)

module _ (limit : ℕ) (key : String) (configs : AgentConfigs) (positive : 1 ≤ limit)
    (small : limit < max_u32)
    (limited : get_integer_or configs "max_iterations" (pos 25) ≡ pos limit) where
  deliver-Counted :
      (counts : Counts) (seen : Turns) (inputs : List (AgentContext × AgentValue))
      → Follows key (others key inputs) counts seen
      → Counted key (deliver (some configs) counts inputs) (turns_of seen (of_flow key inputs))
  deliver-Counted counts seen [] = λ h. h.1
  deliver-Counted counts seen ((ctx, value) ∷ inputs) =
      let next = (process (some configs) counts ctx value).1 in
      elim (Bool-cases (in_flow key ctx)) [
        | inl own ↦ rw own (λ h.
            let keyed = in_flow-keyed key ctx own in
            deliver-Counted next (add_turn seen value) inputs (
              process-counts (some configs) counts ctx value h.0,
              (process-Step limit key ctx positive small configs limited counts seen value keyed
                  h.1).0,
              omega (
                arith,
                h.2,
                process-behind limit key ctx positive small configs limited counts value keyed h.0,
              ),
            ))
        | inr out ↦ rw out (λ h.
            let kept = process-Kept key ctx out counts (omega (arith, h.2)) value (some configs) in
            deliver-Counted next seen inputs (
              process-counts (some configs) counts ctx value h.0,
              ap or_new kept.0 ∙ h.1,
              omega (arith, h.2, kept.1),
            ))
      ]

-- For a flow that is not tracked yet, in a tracker that is well formed, with a limit of at least one turn
-- that is below the highest count, after any values of this flow and of others, those of others fewer
-- than 1024: a value of the flow passes if it asks for no tools or its turn is within the limit. Beyond it
-- the first message of a turn gives the notice on `limit_exceeded`, and its re-delivery gives nothing.
-- Turns are counted over the flow's values: a whole message of the assistant with a call is a new turn
-- unless its id is that of the last one, and without an id it always is one.
pub process-verdict :
    (limit : ℕ) (key : String) (ctx : AgentContext) (configs : AgentConfigs) (counts : Counts)
    (inputs : List (AgentContext × AgentValue)) (value : AgentValue)
    → 1 ≤ limit
    → limit < max_u32
    → get_integer_or configs "max_iterations" (pos 25) ≡ pos limit
    → ctx_key ctx ≡ ok key
    → IsTracked counts
    → entry_of counts key ≡ none
    → others key inputs < max_tracked_ctx_keys
    → (process (some configs) (deliver (some configs) counts inputs) ctx value).2
      ≡ verdict limit ctx (turns_of no_turns (of_flow key inputs)) value
process-verdict limit key ctx configs counts inputs value positive small limited keyed tracked new
      few =
    let begun : Counted key counts no_turns = rw new refl in
    let absent : behind counts.ctx_key_order key ≡ 0 =
      behind-absent counts.ctx_key_order key (sym (tracked.agrees key) ∙ rw new refl) in
    (process-Step limit key ctx positive small configs limited
      (deliver (some configs) counts inputs) (turns_of no_turns (of_flow key inputs)) value keyed
      (deliver-Counted limit key configs positive small limited counts no_turns inputs
        (tracked, begun, omega (arith, absent, few)))).1

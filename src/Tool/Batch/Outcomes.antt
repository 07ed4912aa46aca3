-- ===== src/Tool/Batch/Outcomes.antt =====
-- Every tool call gets one result, in the order of the calls.
use mathlib.Core.Path.{subst}
use modular_agent_core.Prelude.{
  ℕ, zero, suc, ◌≡◌, refl, sym, ap, Bool, true, false, not, Bool-cases, ◌⊎◌, inl, inr, Option, none,
  some, List, [], ◌∷◌, ◌++◌, map, length, length-append, append_assoc, append-nil, get_elem?,
  set_elem, arith,
}
use modular_agent_core.Llm.{ToolCall, Message}
use modular_agent_core.Context.{AgentContext}
use modular_agent_core.Tool.{ToolRegistry}
use modular_agent_core.Tool.Call.{Libraries, execute_tool_call}
use modular_agent_core.Tool.Batch.{
  aborted, Turn, cut, drop, empty_slots, fill, result_in, collect, flush_parallel_batch, awaits,
  fill_at, run_calls, complete, call_all, call_tools,
}

module _ (execute : ToolCall → Message) where
  -- A result for each of the first calls: that of its execution, or the one of an aborted call.
  abbrev pub Outcomes : List ToolCall → List Message → Type 0
  Outcomes calls [] = Unit
  Outcomes [] (m ∷ results) = ⊥
  Outcomes (call ∷ calls) (m ∷ results) =
      ((m ≡ execute call) ⊎ (m ≡ aborted call)) × Outcomes calls results

  Outcomes-append :
      (calls calls' : List ToolCall) (results results' : List Message)
      → Outcomes calls results
      → length results ≡ length calls
      → Outcomes calls' results'
      → Outcomes (calls ++ calls') (results ++ results')
  Outcomes-append [] calls' [] results' h e h' = h'
  Outcomes-append [] calls' (m ∷ results) results' h e h' = absurd h
  Outcomes-append (call ∷ calls) calls' [] results' h e h' = absurd (omega (arith, e))
  Outcomes-append (call ∷ calls) calls' (m ∷ results) results' h e h' =
      (h.0, Outcomes-append calls calls' results results' h.1 (omega (arith, e)) h')

  Outcomes-more :
      (calls calls' : List ToolCall) (results : List Message)
      → Outcomes calls results
      → Outcomes (calls ++ calls') results
  Outcomes-more calls calls' [] h = tt
  Outcomes-more [] calls' (m ∷ results) h = absurd h
  Outcomes-more (call ∷ calls) calls' (m ∷ results) h =
      (h.0, Outcomes-more calls calls' results h.1)

  -- A slot is empty, or holds the result of the call in its place.
  abbrev Held : List ToolCall → List (Option Message) → Type 0
  Held [] [] = Unit
  Held [] (s ∷ slots) = ⊥
  Held (call ∷ batch) [] = ⊥
  Held (call ∷ batch) (s ∷ slots) = ((s ≡ none) ⊎ (s ≡ some (execute call))) × Held batch slots

  empty_slots-Held : (batch : List ToolCall) → Held batch (empty_slots batch)
  unfolding empty_slots
  empty_slots-Held [] = tt
  empty_slots-Held (call ∷ batch) = (inl refl, empty_slots-Held batch)

  set_elem-Held :
      (batch : List ToolCall) (i : ℕ) (call : ToolCall) (slots : List (Option Message))
      → get_elem? batch i ≡ some call
      → Held batch slots
      → Held batch (set_elem slots i (some (execute call)))
  set_elem-Held [] i call slots e h = cc
  set_elem-Held (c ∷ batch) i call [] e h = absurd h
  set_elem-Held (c ∷ batch) zero call (s ∷ slots) e h =
      let same : c ≡ call = cc in (inr (ap (λ d. some (execute d)) (sym same)), h.1)
  set_elem-Held (c ∷ batch) (suc i) call (s ∷ slots) e h =
      (h.0, set_elem-Held batch i call slots e h.1)

  fill_at-Held :
      (batch : List ToolCall) (i : ℕ) (o : Option ToolCall) (slots : List (Option Message))
      → get_elem? batch i ≡ o
      → Held batch slots
      → Held batch (fill_at execute batch i o slots)
  unfolding fill_at
  fill_at-Held batch i none slots e h = h
  fill_at-Held batch i (some call) slots e h = set_elem-Held batch i call slots e h

  fill-Held :
      (batch : List ToolCall) (order : List ℕ) (slots : List (Option Message))
      → Held batch slots
      → Held batch (fill execute batch order slots)
  unfolding fill
  fill-Held batch [] slots h = h
  fill-Held batch (i ∷ order) slots h =
      fill-Held batch order (fill_at execute batch i (get_elem? batch i) slots)
        (fill_at-Held batch i (get_elem? batch i) slots refl h)

  result_in-Outcome :
      (s : Option Message) (call : ToolCall)
      → (s ≡ none) ⊎ (s ≡ some (execute call))
      → (result_in execute s call ≡ execute call) ⊎ (result_in execute s call ≡ aborted call)
  unfolding result_in
  result_in-Outcome none call h = inr refl
  result_in-Outcome (some m) call (inl e) = cc
  result_in-Outcome (some m) call (inr e) = inl (cc)

  collect-Outcomes :
      (batch : List ToolCall) (slots : List (Option Message))
      → Held batch slots
      → Outcomes batch (collect execute slots batch)
        × (length (collect execute slots batch) ≡ length batch)
  unfolding collect
  collect-Outcomes [] [] h = (tt, refl)
  collect-Outcomes [] (s ∷ slots) h = absurd h
  collect-Outcomes (call ∷ batch) [] h = absurd h
  collect-Outcomes (call ∷ batch) (s ∷ slots) h =
      let (held, e) = collect-Outcomes batch slots h.1 in
      ((result_in-Outcome s call h.0, held), ap suc e)

  flush-Outcomes :
      (cancel : Option ℕ) (turn : Turn) (batch : List ToolCall)
      → Outcomes batch (flush_parallel_batch execute cancel turn batch).0
        × (length (flush_parallel_batch execute cancel turn batch).0 ≡ length batch)
  unfolding flush_parallel_batch
  flush-Outcomes cancel turn [] = (tt, refl)
  flush-Outcomes cancel turn (call ∷ batch) = collect-Outcomes (call ∷ batch) _ (
      fill-Held (call ∷ batch) turn.order (empty_slots (call ∷ batch))
        (empty_slots-Held (call ∷ batch)))

  -- What a run has come to: results for the first calls, and for all of them if nothing fired.
  abbrev Good : List ToolCall → List Message × Bool → Type 0
  Good calls r = Outcomes calls r.0 × (r.1 ≡ false → length r.0 ≡ length calls)

  fired-Good :
      (batch calls : List ToolCall) (results : List Message)
      → Outcomes batch results
      → Good (batch ++ calls) (results, true)
  fired-Good batch calls results h = (Outcomes-more batch calls results h, λ e. absurd (cc))

  call-Good :
      (batch calls : List ToolCall) (call : ToolCall) (results : List Message)
      (later : List Message × Bool)
      → Outcomes batch results
      → length results ≡ length batch
      → Good calls later
      → Good (batch ++ call ∷ calls) (results ++ execute call ∷ later.0, later.1)
  call-Good batch calls call results later h e (held, whole) = (
    Outcomes-append batch (call ∷ calls) results (execute call ∷ later.0) h e (inl refl, held),
    λ fine. omega (
      arith,
      e,
      whole fine,
      length-append results (execute call ∷ later.0),
      length-append batch (call ∷ calls),
    ),
  )

  run_calls-Good :
      (is_par : ToolCall → Bool) (cancel : Option ℕ) (turns : ℕ → Turn)
      (calls batch : List ToolCall) (n : ℕ)
      → Good (batch ++ calls) (run_calls execute is_par cancel turns calls batch n)
  unfolding run_calls
  run_calls-Good is_par cancel turns [] batch n =
      let (held, e) = flush-Outcomes cancel (turns n) batch in rw (append-nil batch) (held, λ _. e)
  run_calls-Good is_par cancel turns (call ∷ calls) batch n = elim (Bool-cases (is_par call)) [
    | inl par ↦ rw par (
        subst (λ l. Good l (run_calls execute is_par cancel turns calls (batch ++ call ∷ []) n))
          (append_assoc batch (call ∷ []) calls)
          (run_calls-Good is_par cancel turns calls (batch ++ call ∷ []) n))
    | inr seq ↦
        let flushed = flush_parallel_batch execute cancel (turns n) batch in
        let own = awaits execute batch n in
        let (held, e) = flush-Outcomes cancel (turns n) batch in
        rw seq (elim (Bool-cases (not flushed.1)) [
          | inl over ↦ rw over (fired-Good batch (call ∷ calls) flushed.0 held)
          | inr going ↦ rw going (elim (Bool-cases (cut cancel (turns own))) [
            | inl over ↦ rw over (fired-Good batch (call ∷ calls) flushed.0 held)
            | inr going ↦ rw going (
                call-Good batch calls call flushed.0
                  (run_calls execute is_par cancel turns calls [] (suc own)) held e
                  (run_calls-Good is_par cancel turns calls [] (suc own)))
          ])
        ])
  ]

  aborted-Outcomes :
      (calls : List ToolCall)
      → Outcomes calls (map aborted calls) × (length (map aborted calls) ≡ length calls)
  aborted-Outcomes [] = (tt, refl)
  aborted-Outcomes (call ∷ calls) =
      let (held, e) = aborted-Outcomes calls in ((inr refl, held), ap suc e)

  padded-Outcomes :
      (calls : List ToolCall) (results : List Message)
      → Outcomes calls results
      → Outcomes calls (results ++ map aborted (drop (length results) calls))
        × (length (results ++ map aborted (drop (length results) calls)) ≡ length calls)
  padded-Outcomes calls [] h = aborted-Outcomes calls
  padded-Outcomes [] (m ∷ results) h = absurd h
  padded-Outcomes (call ∷ calls) (m ∷ results) h =
      let (held, e) = padded-Outcomes calls results h.1 in ((h.0, held), ap suc e)

  complete-Outcomes :
      (calls : List ToolCall) (r : List Message × Bool)
      → Good calls r
      → Outcomes calls (complete execute calls r)
        × (length (complete execute calls r) ≡ length calls)
  unfolding complete
  complete-Outcomes calls (results, false) h = (h.0, h.1 refl)
  complete-Outcomes calls (results, true) h = padded-Outcomes calls results h.0

  call_all-Outcomes :
      (is_par : ToolCall → Bool) (cancel : Option ℕ) (turns : ℕ → Turn) (calls : List ToolCall)
      → Outcomes calls (call_all execute is_par cancel turns calls)
        × (length (call_all execute is_par cancel turns calls) ≡ length calls)
  unfolding call_all
  call_all-Outcomes is_par cancel turns [] = (tt, refl)
  call_all-Outcomes is_par cancel turns (call ∷ calls) =
      complete-Outcomes (call ∷ calls) _ (run_calls-Good is_par cancel turns (call ∷ calls) [] 0)

-- Whatever completes in whatever order, and wherever the token fires, the tool calls of a message get
-- one result each, in the order of the calls: that of the execution of the call, or the one that says
-- that it was aborted.
pub call_tools-Outcomes :
    (libraries : Libraries) (fired : ℕ → Bool) (registry : ToolRegistry) (ctx : AgentContext)
    (turns : ℕ → Turn) (calls : List ToolCall)
    → Outcomes
        (execute_tool_call libraries fired registry ctx)
        calls
        (call_tools libraries fired registry ctx turns calls)
      × (length (call_tools libraries fired registry ctx turns calls) ≡ length calls)
unfolding call_tools
call_tools-Outcomes libraries fired registry ctx turns calls =
    call_all-Outcomes (execute_tool_call libraries fired registry ctx) _ ctx.cancel turns calls

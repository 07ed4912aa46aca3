-- ===== src/Tool/Batch/Complete.antt =====
-- Without an abort, `call_tools` gives what the calls give one after the other.
use modular_agent_core.Prelude.{
  ℕ, zero, suc, ◌≤◌, ◌≡◌, refl, ap, ◌∙◌, Bool, true, false, ◌||◌, Bool-cases, inl, inr, Option,
  none, some, List, [], ◌∷◌, ◌++◌, map, length, length-append, append_assoc, append-nil, get_elem?,
  set_elem, get_elem?-set_elem, get_elem?-bound, any, ltb, nat_eq, arith,
}
use modular_agent_core.Llm.{ToolCall, Message}
use modular_agent_core.Context.{AgentContext}
use modular_agent_core.Tool.{ToolRegistry}
use modular_agent_core.Tool.Call.{Libraries, execute_tool_call}
use modular_agent_core.Tool.Batch.{
  is_parallel, Turn, cut, empty_slots, fill_at, fill, result_in, collect, flush_parallel_batch,
  awaits, run_calls, complete, call_all, call_tools,
}

-- An await in which nothing fires and every call of a message of `n` calls completes, if it is started.
pub record IsFair (n : ℕ) (turn : Turn) : Type 0 where
  pub quiet : turn.fires ≡ false
  pub covers : (i : ℕ) → ltb i n ≡ true → any (λ k. nat_eq k i) turn.order ≡ true

module _ (execute : ToolCall → Message) where
  -- Slots whose places in `done` hold the results of their calls.
  abbrev Filled : List ToolCall → List ℕ → List (Option Message) → Type 0
  Filled batch done slots =
      (length slots ≡ length batch)
      × ((k : ℕ) (call : ToolCall)
          → get_elem? batch k ≡ some call
          → any (λ i. nat_eq i k) done ≡ true
          → get_elem? slots k ≡ some (some (execute call)))

  empty_slots-length : (batch : List ToolCall) → length (empty_slots batch) ≡ length batch
  unfolding empty_slots
  empty_slots-length [] = refl
  empty_slots-length (call ∷ batch) = ap suc (empty_slots-length batch)

  set_elem-length :
      (slots : List (Option Message)) (i : ℕ) (m : Option Message)
      → length (set_elem slots i m) ≡ length slots
  set_elem-length [] i m = refl
  set_elem-length (s ∷ slots) zero m = refl
  set_elem-length (s ∷ slots) (suc i) m = ap suc (set_elem-length slots i m)

  fill_at-Filled :
      (batch : List ToolCall) (i : ℕ) (o : Option ToolCall) (done : List ℕ)
      (slots : List (Option Message))
      → get_elem? batch i ≡ o
      → Filled batch done slots
      → Filled batch (i ∷ done) (fill_at execute batch i o slots)
  unfolding fill_at
  fill_at-Filled batch i none done slots e (l, h) = (
    l,
    λ k call at mem. elim (Bool-cases (nat_eq i k)) [
      | inl same ↦ let eq : i ≡ k = ground (arith, same) in absurd (cc)
      | inr apart ↦ h k call at (ground (arith, mem, apart))
    ],
  )
  fill_at-Filled batch i (some c) done slots e (l, h) = (
    set_elem-length slots i (some (execute c)) ∙ l,
    λ k call at mem. elim (Bool-cases (nat_eq i k)) [
      | inl same ↦
          let eq : i ≡ k = ground (arith, same) in
          let own : c ≡ call = cc in
          get_elem?-set_elem slots i k (some (execute c))
          ∙ rw (same, ap (ltb i) l, get_elem?-bound batch i c e, own) refl
      | inr apart ↦
          get_elem?-set_elem slots i k (some (execute c))
          ∙ rw apart (h k call at (ground (arith, mem, apart)))
    ],
  )

  -- The slots when all is done: the results of the calls.
  filled-collect :
      (batch : List ToolCall) (slots : List (Option Message))
      → length slots ≡ length batch
      → ((k : ℕ) (call : ToolCall)
          → get_elem? batch k ≡ some call
          → get_elem? slots k ≡ some (some (execute call)))
      → collect execute slots batch ≡ map execute batch
  unfolding collect result_in
  filled-collect [] [] l h = refl
  filled-collect [] (s ∷ slots) l h = absurd (omega (arith, l))
  filled-collect (call ∷ batch) [] l h = absurd (omega (arith, l))
  filled-collect (call ∷ batch) (s ∷ slots) l h =
      let top = h zero call refl in
      let first : s ≡ some (execute call) = cc in
      rw (first, filled-collect batch slots (omega (arith, l)) (λ k c at. h (suc k) c at)) refl

  fill-Filled :
      (batch : List ToolCall) (order done : List ℕ) (slots : List (Option Message))
      → Filled batch done slots
      → (length (fill execute batch order slots) ≡ length batch)
        × ((k : ℕ) (call : ToolCall)
            → get_elem? batch k ≡ some call
            → (any (λ i. nat_eq i k) done || any (λ i. nat_eq i k) order) ≡ true
            → get_elem? (fill execute batch order slots) k ≡ some (some (execute call)))
  unfolding fill
  fill-Filled batch [] done slots (l, h) = (l, λ k call at mem. h k call at (ground (arith, mem)))
  fill-Filled batch (i ∷ order) done slots filled =
      let (l, h) =
        fill-Filled batch order (i ∷ done) (fill_at execute batch i (get_elem? batch i) slots)
          (fill_at-Filled batch i (get_elem? batch i) done slots refl filled) in
      (l, λ k call at mem. h k call at (ground (arith, mem)))

  module _ (n : ℕ) (cancel : Option ℕ) where
    fair-cut : (c : Option ℕ) (turn : Turn) → IsFair n turn → cut c turn ≡ false
    unfolding cut
    fair-cut none turn fair = refl
    fair-cut (some token) turn fair = fair.quiet

    flush-map :
        (turn : Turn) (batch : List ToolCall)
        → IsFair n turn
        → length batch ≤ n
        → flush_parallel_batch execute cancel turn batch ≡ (map execute batch, true)
    unfolding flush_parallel_batch
    flush-map turn [] fair small = refl
    flush-map turn (call ∷ batch) fair small =
        let all = call ∷ batch in
        let (l, h) =
          fill-Filled all turn.order [] (empty_slots all)
            (empty_slots-length all, λ k c at mem. absurd (cc)) in
        let whole = filled-collect all (fill execute all turn.order (empty_slots all)) l (λ k c at.
          h k c at (fair.covers k (ground (arith, get_elem?-bound all k c at, small)))) in
        rw (whole, fair-cut cancel turn fair) refl

    map-append : (l k : List ToolCall) → map execute (l ++ k) ≡ map execute l ++ map execute k
    map-append [] k = refl
    map-append (c ∷ l) k = ap (λ r. execute c ∷ r) (map-append l k)

    module _ (is_par : ToolCall → Bool) (turns : ℕ → Turn)
        (fair : (m : ℕ) → IsFair n (turns m)) where
      run_calls-map :
          (calls batch : List ToolCall) (m : ℕ)
          → length (batch ++ calls) ≤ n
          → run_calls execute is_par cancel turns calls batch m
            ≡ (map execute (batch ++ calls), false)
      unfolding run_calls
      run_calls-map [] batch m small =
          let few : length batch ≤ n = omega (arith, small, length-append batch []) in
          rw (append-nil batch, flush-map (turns m) batch (fair m) few) refl
      run_calls-map (call ∷ calls) batch m small =
          let fits = length-append batch (call ∷ calls) in
          elim (Bool-cases (is_par call)) [
            | inl par ↦
                let same = append_assoc batch (call ∷ []) calls in
                let wide : length ((batch ++ call ∷ []) ++ calls) ≤ n =
                  omega (arith, small, ap length same) in
                rw par (
                  run_calls-map calls (batch ++ call ∷ []) m wide
                  ∙ ap (λ l. (map execute l, false)) same)
            | inr seq ↦
                let few : length batch ≤ n = omega (arith, small, fits) in
                let rest : length calls ≤ n = omega (arith, small, fits) in
                rw
                  (
                    seq,
                    flush-map (turns m) batch (fair m) few,
                    fair-cut cancel (turns (awaits execute batch m))
                        (fair (awaits execute batch m)),
                    run_calls-map calls [] (suc (awaits execute batch m)) rest,
                    map-append batch (call ∷ calls),
                  )
                  refl
          ]

-- When nothing fires and every started call completes, `call_tools` gives what the calls give when they
-- run one after the other: the modes of the tools and the order of completion do not show in the
-- results.
pub call_tools-map :
    (libraries : Libraries) (fired : ℕ → Bool) (registry : ToolRegistry) (ctx : AgentContext)
    (turns : ℕ → Turn) (calls : List ToolCall)
    → ((m : ℕ) → IsFair (length calls) (turns m))
    → call_tools libraries fired registry ctx turns calls
      ≡ map (execute_tool_call libraries fired registry ctx) calls
unfolding call_tools call_all complete
call_tools-map libraries fired registry ctx turns [] fair = refl
call_tools-map libraries fired registry ctx turns (call ∷ calls) fair =
    rw
      (run_calls-map (execute_tool_call libraries fired registry ctx) (length (call ∷ calls))
        ctx.cancel (is_parallel registry) turns fair (call ∷ calls) [] 0 (omega arith))
      refl

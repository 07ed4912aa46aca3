-- ===== src/Tool/Agents/PresetTool/Waiting.antt =====
-- Which call a value that a workflow gives for a tool goes to: the one that waits under its context's id.
use modular_agent_core.Prelude.{
  ℕ, ◌≡◌, refl, ap, ◌∙◌, Bool-cases, inl, inr, Option, none, some, List, [], ◌∷◌, arith, nat_eq,
  if◌then◌else◌,
}
use modular_agent_core.Prelude.Int.{ℤ}
use modular_agent_core.Error.{Result, ok, err}
use modular_agent_core.Context.{AgentContext}
use modular_agent_core.Tool.Agents.PresetTool.{
  Pending, PresetToolAgent, waiting, remove_waiting, insert_waiting, process, start_tool_call,
  started_call, end_tool_call, Wait,
}

waiting-remove_waiting :
    (pending : Pending) (id j : ℕ)
    → waiting (remove_waiting pending id) j ≡ (if nat_eq id j then none else waiting pending j)
unfolding waiting remove_waiting
waiting-remove_waiting [] id j = ground arith
waiting-remove_waiting ((i, call) ∷ rest) id j = ground (arith, waiting-remove_waiting rest id j)

waiting-insert_waiting :
    (pending : Pending) (id call j : ℕ)
    → waiting (insert_waiting pending id call) j
      ≡ (if nat_eq id j then some call else waiting pending j)
unfolding waiting insert_waiting
waiting-insert_waiting pending id call j = ground (arith, waiting-remove_waiting pending id j)

empty-waiting :
    (agent : PresetToolAgent) (id : ℕ) → agent.pending ≡ [] → waiting agent.pending id ≡ none
unfolding waiting
empty-waiting agent id idle = ap (λ p. waiting p id) idle

-- What happens at the agent: a call starts, and its arguments go out or do not; a call ends, in any
-- way; a value comes from the workflow.
pub data Happening : Type 0 where
  begins : AgentContext → (call : ℕ) → (sent : Result (Unit {0})) → Happening
  ends : AgentContext → (secs : ℤ) → Wait → Happening
  comes : AgentContext → Happening

abbrev pub after_one : Happening → PresetToolAgent → PresetToolAgent
after_one (begins ctx call sent) agent = (start_tool_call ctx call sent agent).1
after_one (ends ctx secs wait) agent = (end_tool_call ctx secs wait agent).1
after_one (comes ctx) agent = (process ctx agent).1

abbrev pub after_all : List Happening → PresetToolAgent → PresetToolAgent
after_all [] agent = agent
after_all (h ∷ hs) agent = after_all hs (after_one h agent)

abbrev runs_if : Result (Unit {0}) → ℕ → Option ℕ
runs_if (ok u) call = some call
runs_if (err e) call = none

-- The call that waits under an id of a context: the last one that was started there, until a call of
-- the context ends, a start there fails or a value of the context comes.
abbrev pub running : Option ℕ → ℕ → List Happening → Option ℕ
running now id [] = now
running now id (begins ctx call sent ∷ hs) =
    running (if nat_eq ctx.id id then runs_if sent call else now) id hs
running now id (ends ctx secs wait ∷ hs) = running (if nat_eq ctx.id id then none else now) id hs
running now id (comes ctx ∷ hs) = running (if nat_eq ctx.id id then none else now) id hs

waiting-start_tool_call :
    (id : ℕ) (ctx : AgentContext) (call : ℕ) (sent : Result (Unit {0})) (agent : PresetToolAgent)
    → waiting (start_tool_call ctx call sent agent).1.pending id
      ≡ (if nat_eq ctx.id id then runs_if sent call else waiting agent.pending id)
unfolding start_tool_call started_call
waiting-start_tool_call id ctx call (ok u) agent =
    waiting-insert_waiting agent.pending ctx.id call id
waiting-start_tool_call id ctx call (err e) agent =
    let inserted = waiting-insert_waiting agent.pending ctx.id call id in
    let removed = waiting-remove_waiting (insert_waiting agent.pending ctx.id call) ctx.id id in
    elim (Bool-cases (nat_eq ctx.id id)) [
      | inl same ↦ rw same (removed ∙ rw same refl)
      | inr apart ↦ rw apart (removed ∙ rw apart (inserted ∙ rw apart refl))
    ]

waiting-after_all :
    (id : ℕ) (hs : List Happening) (agent : PresetToolAgent)
    → waiting (after_all hs agent).pending id ≡ running (waiting agent.pending id) id hs
unfolding end_tool_call process
waiting-after_all id [] agent = refl
waiting-after_all id (begins ctx call sent ∷ hs) agent =
    waiting-after_all id hs (start_tool_call ctx call sent agent).1
    ∙ ap (λ now. running now id hs) (waiting-start_tool_call id ctx call sent agent)
waiting-after_all id (ends ctx secs wait ∷ hs) agent =
    waiting-after_all id hs (end_tool_call ctx secs wait agent).1
    ∙ ap (λ now. running now id hs) (waiting-remove_waiting agent.pending ctx.id id)
waiting-after_all id (comes ctx ∷ hs) agent =
    waiting-after_all id hs (process ctx agent).1
    ∙ ap (λ now. running now id hs) (waiting-remove_waiting agent.pending ctx.id id)

-- From an agent for which no call waits, after any calls that start and end and any values that come,
-- in any order and any contexts: the next value of a context goes to the last call that was started
-- under the context's id, if its arguments went out and since then no call of that id ended and no
-- value of that id came; otherwise it goes to no call. So a value that is late, for a call that timed
-- out or was aborted, goes to the call that then waits under the same id, if there is one.
pub process-running :
    (agent : PresetToolAgent) (hs : List Happening) (ctx : AgentContext)
    → agent.pending ≡ []
    → (process ctx (after_all hs agent)).0 ≡ running none ctx.id hs
unfolding process
process-running agent hs ctx idle =
    waiting-after_all ctx.id hs agent
    ∙ ap (λ now. running now ctx.id hs) (empty-waiting agent ctx.id idle)

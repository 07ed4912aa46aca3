-- ===== src/Context/Tests.antt =====
-- Examples on contexts with map frames.
use modular_agent_core.Prelude.{ℕ, ◌≡◌, ◌≢◌, refl, none, some, List, [], ◌∷◌, arith}
use modular_agent_core.Error.{ok}
use modular_agent_core.Context.{
  AgentContext, frame_map, map_frame_data, push_frame, push_map_frame, pop_map_frame,
  map_frame_indices, ctx_key,
}
use modular_agent_core.Context.Frames.{
  pop_map_frame-push_map_frame, map_frame_indices-push_map_frame,
}
use modular_agent_core.Context.Key.{ctx_key-injective}

abbrev fresh : AgentContext
fresh = record { id = 7; vars = none; frames = none; cancel = none }

abbrev pushed : AgentContext
pushed = push_frame fresh frame_map (map_frame_data 1 3)

push : push_map_frame fresh 1 3 ≡ ok pushed
unfolding push_map_frame
push = refl

no_stack : fresh.frames ≢ some []
no_stack h = cc

fresh_indices : map_frame_indices fresh ≡ ok []
unfolding map_frame_indices
fresh_indices = refl

pop_map_frame-push_map_frame_example : pop_map_frame pushed ≡ ok fresh
pop_map_frame-push_map_frame_example = pop_map_frame-push_map_frame fresh 1 3 no_stack push

pushed_indices : map_frame_indices pushed ≡ ok ((1, 3) ∷ [])
pushed_indices = map_frame_indices-push_map_frame fresh 1 3 (omega arith) fresh_indices push

pushed_key : ctx_key pushed ≡ ok "7:1:3"
unfolding ctx_key modular_agent_core.Decimal.to_string push_frame
pushed_key = rw pushed_indices refl

abbrev indices : List (ℕ × ℕ)
indices = (1, 3) ∷ []

ctx_key-injective_example : (pushed.id ≡ pushed.id) × (indices ≡ indices)
ctx_key-injective_example =
    ctx_key-injective pushed pushed indices indices "7:1:3" pushed_indices pushed_indices pushed_key
      pushed_key

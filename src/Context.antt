-- ===== src/Context.antt =====
-- context.rs: the context that travels with a value, and its stack of frames.
pub mod Frames
pub mod Key
mod Tests
use Prim.Native.String.{◌++◌ as append, ◌∷◌ as char_in_front}
use modular_agent_core.Prelude.{
  ℕ, zero, suc, ◌+◌, ◌%◌, ◌^◌, String, Bool, true, false, not, ◌||◌, Option, none, some, List, [],
  ◌∷◌, ◌++◌, ◌==◌, ltb, nat_eq, if◌then◌else◌,
}
use modular_agent_core.Prelude.Int
use modular_agent_core.Prelude.Int.{ℤ, is_negative}
use modular_agent_core.Decimal.{to_string}
use modular_agent_core.Error.{invalid_value, Result, ok, err, ◌>>=◌, ◌>>◌, guard, ok_or}
use modular_agent_core.Value
use modular_agent_core.Value.{AgentValue, ValueMap, end}

pub record Frame : Type 0 where
  pub name : String
  pub contents : AgentValue

-- A cancellation token is known by its number; its state is kept by the runtime.
pub record AgentContext : Type 0 where
  pub id : ℕ
  pub vars : Option ValueMap
  pub frames : Option (List Frame)
  pub cancel : Option ℕ

abbrev pub frame_map : String
frame_map = "map"

abbrev pub frame_key_index : String
frame_key_index = "index"

abbrev pub frame_key_length : String
frame_key_length = "length"

-- The counter is an `AtomicUsize`: `fetch_add` wraps round.
unfoldable pub new : ℕ → AgentContext × ℕ
new counter =
    (record { id = counter; vars = none; frames = none; cancel = none }, (counter + 1) % 2 ^ 64)

vars_or_empty : Option ValueMap → ValueMap
vars_or_empty none = end
vars_or_empty (some m) = m

unfoldable pub get_var : AgentContext → String → Option AgentValue
unfolding vars_or_empty
get_var ctx key = Value.lookup (vars_or_empty ctx.vars) key

unfoldable pub with_var : AgentContext → String → AgentValue → AgentContext
unfolding vars_or_empty
with_var ctx key v = record ctx { vars = some (Value.insert (vars_or_empty ctx.vars) key v) }

unfoldable pub with_cancel_token : AgentContext → ℕ → AgentContext
with_cancel_token ctx token = record ctx { cancel = some token }

unfoldable pub is_cancelled : (ℕ → Bool) → AgentContext → Bool
is_cancelled fired ctx = elim ctx.cancel [ none ↦ false | some t ↦ fired t ]

set_or_keep : AgentValue → String → AgentValue → AgentValue
set_or_keep v key w = elim (Value.set v key w) [ ok v' ↦ v' | err e ↦ v ]

unfoldable pub map_frame_data : ℕ → ℕ → AgentValue
unfolding set_or_keep
map_frame_data index len =
    set_or_keep
      (set_or_keep (AgentValue.object end) frame_key_index (AgentValue.integer (Int.as_i64 index)))
      frame_key_length (AgentValue.integer (Int.as_i64 len))

integer_field : Frame → String → String → Result ℤ
integer_field frame key message =
    ok_or (elim (Value.get frame.contents key) [ none ↦ none | some v ↦ Value.as_i64 v ])
      (invalid_value message)

-- `len < 1`
is_below_one : ℤ → Bool
is_below_one (Int.pos zero) = true
is_below_one (Int.pos (suc n)) = false
is_below_one (Int.negsuc n) = true

unfoldable pub read_map_frame : Frame → Result (ℕ × ℕ)
unfolding integer_field is_below_one
read_map_frame frame = do
  idx ← integer_field frame frame_key_index "map frame missing integer index"
  len ← integer_field frame frame_key_length "map frame missing integer length"
  guard (not (is_negative idx || is_below_one len)) (invalid_value "Invalid map frame values")
  guard (ltb (Int.as_usize idx) (Int.as_usize len))
      (invalid_value "map frame index is out of bounds")
  ok (Int.as_usize idx, Int.as_usize len)

abbrev pub frames_or_empty : Option (List Frame) → List Frame
frames_or_empty none = []
frames_or_empty (some fs) = fs

unfoldable pub push_frame : AgentContext → String → AgentValue → AgentContext
push_frame ctx name contents = record ctx {
  frames = some (frames_or_empty ctx.frames ++ record { name = name; contents = contents } ∷ []);
}

unfoldable pub push_map_frame : AgentContext → ℕ → ℕ → Result AgentContext
push_map_frame ctx index len = do
  guard (not (nat_eq len 0)) (invalid_value "map frame length must be positive")
  guard (ltb index len) (invalid_value "map frame index is out of bounds")
  ok (push_frame ctx frame_map (map_frame_data index len))

-- `pop_back`: the last frame, and those before it.
unfoldable pub split_last : Frame → List Frame → Frame × List Frame
split_last f [] = (f, [])
split_last f (g ∷ fs) = let (last, before) = split_last g fs in (last, f ∷ before)

frames_of : List Frame → Option (List Frame)
frames_of [] = none
frames_of (f ∷ fs) = some (f ∷ fs)

unfoldable pub pop_from : Option (List Frame) → AgentContext → Option Frame × AgentContext
unfolding frames_of
pop_from none ctx = (none, ctx)
pop_from (some []) ctx = (none, ctx)
pop_from (some (f ∷ fs)) ctx =
    let (last, before) = split_last f fs in (some last, record ctx { frames = frames_of before })

unfoldable pub pop_frame : AgentContext → Option Frame × AgentContext
unfolding pop_from
pop_frame ctx = pop_from ctx.frames ctx

expect_map : Option Frame × AgentContext → Result AgentContext
expect_map (none, next_ctx) = err (invalid_value "Missing map frame in context")
expect_map (some f, next_ctx) =
    if f.name == frame_map
    then ok next_ctx
    else err (invalid_value (append "Unexpected frame '" (append f.name "', expected map")))

unfoldable pub pop_map_frame : AgentContext → Result AgentContext
unfolding expect_map
pop_map_frame ctx = expect_map (pop_frame ctx)

last_frame : List Frame → Option Frame
last_frame [] = none
last_frame (f ∷ fs) = some (split_last f fs).0

unfoldable pub read_last : Option Frame → Result (Option (ℕ × ℕ))
read_last none = ok none
read_last (some f) =
    if f.name == frame_map then (do pair ← read_map_frame f; ok (some pair)) else ok none

unfoldable pub current_map_frame : AgentContext → Result (Option (ℕ × ℕ))
unfolding last_frame read_last
current_map_frame ctx = read_last (last_frame (frames_or_empty ctx.frames))

unfoldable pub indices_of : List Frame → Result (List (ℕ × ℕ))
indices_of [] = ok []
indices_of (f ∷ fs) =
    let rest = indices_of fs in
    if f.name == frame_map
    then (do pair ← read_map_frame f; others ← rest; ok (pair ∷ others))
    else rest

unfoldable pub map_frame_indices : AgentContext → Result (List (ℕ × ℕ))
unfolding indices_of
map_frame_indices ctx = indices_of (frames_or_empty ctx.frames)

-- `{idx}:{len}`
part : ℕ × ℕ → String
part (idx, len) = append (to_string idx) (char_in_front ":" (to_string len))

-- The parts, joined by commas.
join_parts : ℕ × ℕ → List (ℕ × ℕ) → String
join_parts p [] = part p
join_parts p (q ∷ rest) = append (part p) (char_in_front "," (join_parts q rest))

-- `{id}`, or `{id}:{parts}`
unfoldable pub key_of : ℕ → List (ℕ × ℕ) → String
unfolding part join_parts
key_of id [] = to_string id
key_of id (p ∷ rest) = append (to_string id) (char_in_front ":" (join_parts p rest))

unfoldable pub ctx_key : AgentContext → Result String
unfolding key_of
ctx_key ctx = do indices ← map_frame_indices ctx; ok (key_of ctx.id indices)

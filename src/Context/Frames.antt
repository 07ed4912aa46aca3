-- ===== src/Context/Frames.antt =====
-- The stack of map frames of context.rs: what a push leaves, and that a pop undoes it.
use modular_agent_core.Prelude.{
  ℕ, ◌<◌, ◌^◌, String, if◌then◌else◌, All, ◌≡◌, ◌≢◌, refl, true, Option, none, some, List, [], ◌∷◌,
  ◌++◌, arith, ◌==◌, ◌∙◌, ap,
}
use modular_agent_core.Prelude.Int
use modular_agent_core.Error.{Result, ok, ◌>>=◌, ok-injective}
use modular_agent_core.Value
use modular_agent_core.Value.{AgentValue}
use modular_agent_core.Context.{
  Frame, AgentContext, frame_map, map_frame_data, read_map_frame, frames_or_empty, push_frame,
  push_map_frame, split_last, frames_of, pop_from, pop_frame, expect_map, pop_map_frame, last_frame,
  read_last, current_map_frame, indices_of, map_frame_indices, vars_or_empty, get_var, with_var,
}

split_last-snoc : (g f : Frame) (fs : List Frame) → split_last g (fs ++ f ∷ []) ≡ (f, g ∷ fs)
unfolding split_last
split_last-snoc g f [] = refl
split_last-snoc g f (h ∷ fs) = rw (split_last-snoc h f fs)

pop_from-snoc :
    (fs : List Frame) (f : Frame) (ctx : AgentContext)
    → pop_from (some (fs ++ f ∷ [])) ctx ≡ (some f, record ctx { frames = frames_of fs })
unfolding pop_from
pop_from-snoc [] f ctx = unfold split_last frames_of in refl
pop_from-snoc (g ∷ fs) f ctx = rw (split_last-snoc g f fs) (unfold frames_of in refl)

last_frame-snoc : (fs : List Frame) (f : Frame) → last_frame (fs ++ f ∷ []) ≡ some f
unfolding last_frame
last_frame-snoc [] f = unfold split_last in refl
last_frame-snoc (g ∷ fs) f = rw (split_last-snoc g f fs)

read_map_frame-map_frame_data :
    (i n : ℕ)
    → i < n
    → n < 2 ^ 63
    → read_map_frame (record { name = frame_map; contents = map_frame_data i n }) ≡ ok (i, n)
unfolding read_map_frame map_frame_data Value.set Value.get Value.insert Value.lookup Value.as_i64
read_map_frame-map_frame_data i n h k =
    rw (Int.as_i64_of_lt i (omega arith), Int.as_i64_of_lt n k)
      (unfold Int.as_usize in ground arith)

append_index : Result (List (ℕ × ℕ)) → ℕ × ℕ → Result (List (ℕ × ℕ))
append_index r p = do l ← r; ok (l ++ p ∷ [])

indices_of-snoc :
    (fs : List Frame) (f : Frame) (i n : ℕ)
    → (f.name == frame_map) ≡ true
    → read_map_frame f ≡ ok (i, n)
    → indices_of (fs ++ f ∷ []) ≡ append_index (indices_of fs) (i, n)
unfolding indices_of append_index
indices_of-snoc [] f i n h k = rw h (rw k refl)
indices_of-snoc (g ∷ fs) f i n h k = ground (arith, indices_of-snoc fs f i n h k)

module _ (ctx : AgentContext) (i n : ℕ) {ctx' : AgentContext}
    (pushed : push_map_frame ctx i n ≡ ok ctx') where
  push_map_frame-eq : ctx' ≡ push_frame ctx frame_map (map_frame_data i n)
  unfolding push_map_frame
  push_map_frame-eq = ground arith

  in_bounds : i < n
  unfolding push_map_frame
  in_bounds = ground arith

frames_of-frames_or_empty :
    (o : Option (List Frame)) → o ≢ some [] → frames_of (frames_or_empty o) ≡ o
unfolding frames_of
frames_of-frames_or_empty none h = refl
frames_of-frames_or_empty (some []) h = absurd (h refl)
frames_of-frames_or_empty (some (f ∷ fs)) h = refl

-- A pop returns the frame that was pushed last and the context from before.
pub pop_frame-push_frame :
    (ctx : AgentContext) (f : Frame)
    → ctx.frames ≢ some []
    → pop_frame (push_frame ctx f.name f.contents) ≡ (some f, ctx)
unfolding pop_frame push_frame
pop_frame-push_frame ctx f h =
    pop_from-snoc (frames_or_empty ctx.frames) f _
    ∙ ap (λ fs. (some f, record ctx { frames = fs })) (frames_of-frames_or_empty ctx.frames h)

-- A pop undoes a push of a map frame, on a context that does not hold an empty stack.
pub pop_map_frame-push_map_frame :
    (ctx : AgentContext) (i n : ℕ) {ctx' : AgentContext}
    → ctx.frames ≢ some []
    → push_map_frame ctx i n ≡ ok ctx'
    → pop_map_frame ctx' ≡ ok ctx
unfolding pop_map_frame expect_map
pop_map_frame-push_map_frame ctx i n h pushed = rw (push_map_frame-eq ctx i n pushed) (
    ap expect_map
      (pop_frame-push_frame ctx (record { name = frame_map; contents = map_frame_data i n }) h))

-- The frame that a push leaves on top is the one that is read back, for a length below 2^63.
pub current_map_frame-push_map_frame :
    (ctx : AgentContext) (i n : ℕ) {ctx' : AgentContext}
    → n < 2 ^ 63
    → push_map_frame ctx i n ≡ ok ctx'
    → current_map_frame ctx' ≡ ok (some (i, n))
unfolding current_map_frame push_frame read_last
current_map_frame-push_map_frame ctx i n h pushed =
    rw (push_map_frame-eq ctx i n pushed) (
      rw last_frame-snoc (rw (read_map_frame-map_frame_data i n (in_bounds ctx i n pushed) h) refl))

-- The map frames are listed from the oldest to the newest: a push adds its pair at the end.
pub map_frame_indices-push_map_frame :
    (ctx : AgentContext) (i n : ℕ) {ctx' : AgentContext} {l : List (ℕ × ℕ)}
    → n < 2 ^ 63
    → map_frame_indices ctx ≡ ok l
    → push_map_frame ctx i n ≡ ok ctx'
    → map_frame_indices ctx' ≡ ok (l ++ (i, n) ∷ [])
unfolding map_frame_indices push_frame append_index
map_frame_indices-push_map_frame ctx i n h e pushed = rw (push_map_frame-eq ctx i n pushed) (
    rw
      (indices_of-snoc (frames_or_empty ctx.frames)
        (record { name = frame_map; contents = map_frame_data i n }) i n refl
        (read_map_frame-map_frame_data i n (in_bounds ctx i n pushed) h))
      (rw e refl))

abbrev pub IsIndex : ℕ × ℕ → Type 0
IsIndex p = p.0 < p.1

read_map_frame-IsIndex : (f : Frame) (p : ℕ × ℕ) → read_map_frame f ≡ ok p → IsIndex p
unfolding read_map_frame
read_map_frame-IsIndex f p h = ground arith

indices_of-IsIndex : (fs : List Frame) (l : List (ℕ × ℕ)) → indices_of fs ≡ ok l → All IsIndex l
unfolding indices_of
indices_of-IsIndex [] l e = rw (← ok-injective e) tt
indices_of-IsIndex (f ∷ fs) [] e = tt
indices_of-IsIndex (f ∷ fs) (p ∷ l) e =
    ground
      (arith, indices_of-IsIndex fs l, indices_of-IsIndex fs (p ∷ l), read_map_frame-IsIndex f p)

-- Every pair that is listed is an index below its length.
pub map_frame_indices-IsIndex :
    (ctx : AgentContext) (l : List (ℕ × ℕ)) → map_frame_indices ctx ≡ ok l → All IsIndex l
unfolding map_frame_indices
map_frame_indices-IsIndex ctx l e = indices_of-IsIndex (frames_or_empty ctx.frames) l e

-- After a variable is set, it reads as that value, and every other variable as before.
pub get_var-with_var :
    (ctx : AgentContext) (k j : String) (v : AgentValue)
    → get_var (with_var ctx k v) j ≡ (if k == j then some v else get_var ctx j)
unfolding get_var with_var
get_var-with_var ctx k j v = Value.lookup-insert (vars_or_empty ctx.vars) k j v

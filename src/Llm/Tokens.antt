-- ===== src/Llm/Tokens.antt =====
-- llm.rs: the estimates of tokens, the reading of a message, and its equality. The print of `serde_json`
-- is an argument. The sums are those of a release build, which wrap round.
pub mod Context
mod Tests
use Prim.Native.String.{◌++◌ as append, len}
use modular_agent_core.Prelude.{
  ℕ, ◌+◌, ◌*◌, ◌/◌, ◌%◌, ◌^◌, String, ◌≡◌, refl, sym, ap, ◌∙◌, Bool, true, false, not, ◌&&◌,
  Bool-cases, ◌⊎◌, inl, inr, Option, none, some, List, [], ◌∷◌, ◌++◌, any, arith, ◌==◌, nat_eq,
  if◌then◌else◌,
}
use modular_agent_core.Text.{is_empty}
use modular_agent_core.Json.{Json}
use modular_agent_core.Llm.{
  PhotonImage, ContentBlock, text, thinking, image, MessageContent, plain, blocks, Usage, ToolCall,
  Message, new,
}

-- Message::system
unfoldable pub system : String → Message
system content = new "system" content

unfoldable pub with_image : Message → PhotonImage → Message
with_image m i = record m { image = some i }

-- `absorb_legacy_thinking`
unfoldable pub absorb_legacy_thinking : MessageContent → String → MessageContent
absorb_legacy_thinking (plain s) t =
    if is_empty s
    then blocks (thinking t none false ∷ [])
    else blocks (thinking t none false ∷ text s ∷ [])
absorb_legacy_thinking (blocks bs) t = blocks (thinking t none false ∷ bs)

thoughts : List ContentBlock → List String
thoughts [] = []
thoughts (thinking t signature redacted ∷ rest) =
    (if redacted then "[redacted]" else t) ∷ thoughts rest
thoughts (_ ∷ rest) = thoughts rest

join_lines : String → List String → String
join_lines s [] = s
join_lines s (t ∷ rest) = append s (append "\n" (join_lines t rest))

joined : List String → Option String
unfolding join_lines
joined [] = none
joined (s ∷ rest) = some (join_lines s rest)

-- Message::thinking
unfoldable pub thinking_of : MessageContent → Option String
unfolding thoughts joined
thinking_of (plain s) = none
thinking_of (blocks bs) = joined (thoughts bs)

abbrev image_tokens : ℕ
image_tokens = 1200

-- The bytes of the texts of a block, and the tokens of its image.
block_bytes : ContentBlock → ℕ
block_bytes (text s) = len s
block_bytes (thinking t signature redacted) = len t
block_bytes (image contents mime_type) = 0

block_tokens : ContentBlock → ℕ
block_tokens (image contents mime_type) = image_tokens
block_tokens _ = 0

sum_of {ℓ} : {A : Type ℓ} → (A → ℕ) → List A → ℕ
sum_of f [] = 0
sum_of f (x ∷ xs) = f x + sum_of f xs

content_bytes : MessageContent → ℕ
unfolding sum_of block_bytes
content_bytes (plain s) = len s
content_bytes (blocks bs) = sum_of block_bytes bs

content_images : MessageContent → ℕ
unfolding sum_of block_tokens
content_images (plain s) = 0
content_images (blocks bs) = sum_of block_tokens bs

attached : Option PhotonImage → ℕ
attached none = 0
attached (some i) = image_tokens

or_nil : Option (List ToolCall) → List ToolCall
or_nil none = []
or_nil (some calls) = calls

module _ (print : Json → String) where
  call_bytes : ToolCall → ℕ
  call_bytes call = len call.function.name + len (print call.function.parameters)

  unfoldable pub estimate_message_tokens : Message → ℕ
  unfolding content_bytes content_images attached or_nil sum_of call_bytes
  estimate_message_tokens m =
      (content_bytes m.content + sum_of call_bytes (or_nil m.tool_calls) + 3) / 4
      + (content_images m.content + attached m.image)

  unfoldable pub estimate_all : List Message → ℕ
  unfolding sum_of
  estimate_all messages = sum_of estimate_message_tokens messages

  unfoldable pub used : Usage → ℕ
  used u = u.input_tokens + u.output_tokens + u.cache_read_tokens + u.cache_write_tokens

  reported : Bool → Option Usage → Option Usage
  reported true u = u
  reported false u = none

  -- The usage that the message reports, if it is one of the assistant.
  unfoldable pub anchor_of : Message → Option Usage
  unfolding reported
  anchor_of m = reported (m.role == "assistant") m.usage

  or_here : Option ℕ → Option Usage → List Message → Option ℕ
  or_here (some n) u after = some n
  or_here none none after = none
  or_here none (some u) after = some (used u + estimate_all after)

  -- The estimate from the last message on that reports its usage.
  anchored : List Message → Option ℕ
  unfolding or_here
  anchored [] = none
  anchored (m ∷ messages) = or_here (anchored messages) (anchor_of m) messages

  or_all : Option ℕ → List Message → ℕ
  or_all (some n) messages = n
  or_all none messages = estimate_all messages

  unfoldable pub estimate_context_tokens : List Message → ℕ
  unfolding anchored or_all
  estimate_context_tokens messages = or_all (anchored messages) messages % 2 ^ 64

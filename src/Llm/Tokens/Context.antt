-- ===== src/Llm/Tokens/Context.antt =====
-- `estimate_context_tokens` of llm.rs against a count of bytes and images.
use Prim.Native.String.{len}
use modular_agent_core.Prelude.{
  ℕ, ◌+◌, ◌*◌, ◌/◌, ◌%◌, ◌^◌, String, ◌≡◌, refl, ap, false, Bool-cases, ◌⊎◌, inl, inr, Option, none,
  some, List, [], ◌∷◌, ◌++◌, arith, ◌==◌,
}
use modular_agent_core.Json.{Json}
use modular_agent_core.Llm.{
  PhotonImage, ContentBlock, text, thinking, image, MessageContent, plain, blocks, Usage, ToolCall,
  Message,
}
use modular_agent_core.Llm.Tokens.{
  block_bytes, block_tokens, sum_of, content_bytes, content_images, attached, or_nil, call_bytes,
  estimate_message_tokens, estimate_all, used, reported, anchor_of, or_here, anchored, or_all,
  estimate_context_tokens,
}

module _ (print : Json → String) where
  -- The texts of a message: of its content, and the names and the printed arguments of its calls.
  abbrev block_texts : List ContentBlock → List String
  block_texts [] = []
  block_texts (text s ∷ rest) = s ∷ block_texts rest
  block_texts (thinking t signature redacted ∷ rest) = t ∷ block_texts rest
  block_texts (image contents mime_type ∷ rest) = block_texts rest

  abbrev content_texts : MessageContent → List String
  content_texts (plain s) = s ∷ []
  content_texts (blocks bs) = block_texts bs

  abbrev call_texts : List ToolCall → List String
  call_texts [] = []
  call_texts (call ∷ calls) = call.function.name ∷ print call.function.parameters ∷ call_texts calls

  abbrev option_texts : Option (List ToolCall) → List String
  option_texts none = []
  option_texts (some calls) = call_texts calls

  abbrev texts : Message → List String
  texts m = content_texts m.content ++ option_texts m.tool_calls

  abbrev images_in : List ContentBlock → ℕ
  images_in [] = 0
  images_in (image contents mime_type ∷ rest) = 1 + images_in rest
  images_in (_ ∷ rest) = images_in rest

  abbrev content_count : MessageContent → ℕ
  content_count (plain s) = 0
  content_count (blocks bs) = images_in bs

  abbrev attached_count : Option PhotonImage → ℕ
  attached_count none = 0
  attached_count (some i) = 1

  abbrev bytes : List String → ℕ
  bytes [] = 0
  bytes (s ∷ rest) = len s + bytes rest

  -- A token for four bytes of text, a part of four as a whole, and 1200 for each image.
  abbrev pub cost : Message → ℕ
  cost m = (bytes (texts m) + 3) / 4 + 1200 * (content_count m.content + attached_count m.image)

  abbrev pub costs : List Message → ℕ
  costs [] = 0
  costs (m ∷ messages) = cost m + costs messages

  bytes-append : (xs ys : List String) → bytes (xs ++ ys) ≡ bytes xs + bytes ys
  bytes-append [] ys = omega arith
  bytes-append (x ∷ xs) ys = omega (arith, bytes-append xs ys)

  blocks-bytes : (bs : List ContentBlock) → sum_of block_bytes bs ≡ bytes (block_texts bs)
  unfolding sum_of block_bytes
  blocks-bytes [] = refl
  blocks-bytes (text s ∷ bs) = ap (λ n. len s + n) (blocks-bytes bs)
  blocks-bytes (thinking t signature redacted ∷ bs) = ap (λ n. len t + n) (blocks-bytes bs)
  blocks-bytes (image contents mime_type ∷ bs) = omega (arith, blocks-bytes bs)

  content-bytes : (c : MessageContent) → content_bytes c ≡ bytes (content_texts c)
  unfolding content_bytes
  content-bytes (plain s) = omega arith
  content-bytes (blocks bs) = blocks-bytes bs

  calls-bytes : (calls : List ToolCall) → sum_of (call_bytes print) calls ≡ bytes (call_texts calls)
  unfolding sum_of call_bytes
  calls-bytes [] = refl
  calls-bytes (call ∷ calls) = omega (arith, calls-bytes calls)

  options-bytes :
      (calls : Option (List ToolCall))
      → sum_of (call_bytes print) (or_nil calls) ≡ bytes (option_texts calls)
  unfolding or_nil sum_of
  options-bytes none = refl
  options-bytes (some calls) = calls-bytes calls

  blocks-images : (bs : List ContentBlock) → sum_of block_tokens bs ≡ 1200 * images_in bs
  unfolding sum_of block_tokens
  blocks-images [] = refl
  blocks-images (text s ∷ bs) = omega (arith, blocks-images bs)
  blocks-images (thinking t signature redacted ∷ bs) = omega (arith, blocks-images bs)
  blocks-images (image contents mime_type ∷ bs) = omega (arith, blocks-images bs)

  content-images : (c : MessageContent) → content_images c ≡ 1200 * content_count c
  unfolding content_images
  content-images (plain s) = refl
  content-images (blocks bs) = blocks-images bs

  attached-images : (i : Option PhotonImage) → attached i ≡ 1200 * attached_count i
  unfolding attached
  attached-images none = refl
  attached-images (some i) = refl

  estimate_message_tokens-cost : (m : Message) → estimate_message_tokens print m ≡ cost m
  unfolding estimate_message_tokens
  estimate_message_tokens-cost m =
      rw
        (
          content-bytes m.content,
          options-bytes m.tool_calls,
          content-images m.content,
          attached-images m.image,
          bytes-append (content_texts m.content) (option_texts m.tool_calls),
        )
        (omega arith)

  estimate_all-costs : (messages : List Message) → estimate_all print messages ≡ costs messages
  unfolding estimate_all sum_of
  estimate_all-costs [] = refl
  estimate_all-costs (m ∷ messages) =
      rw (estimate_message_tokens-cost m, ← estimate_all-costs messages) refl

  -- None of the messages is one of the assistant with its usage.
  abbrev pub ReportsNothing : List Message → Type 0
  ReportsNothing [] = Unit
  ReportsNothing (m ∷ messages) =
      (((m.role == "assistant") ≡ false) ⊎ (m.usage ≡ none)) × ReportsNothing messages

  no-anchor :
      (m : Message)
      → (((m.role == "assistant") ≡ false) ⊎ (m.usage ≡ none))
      → anchor_of print m ≡ none
  unfolding anchor_of reported
  no-anchor m (inl e) = rw e refl
  no-anchor m (inr e) = elim (Bool-cases (m.role == "assistant")) [
    | inl assistant ↦ rw (assistant, e) refl
    | inr other ↦ rw other refl
  ]

  an-anchor :
      (m : Message) (u : Usage)
      → m.role ≡ "assistant"
      → m.usage ≡ some u
      → anchor_of print m ≡ some u
  unfolding anchor_of reported
  an-anchor m u role e = rw (role, e) refl

  anchored-ReportsNothing :
      (messages : List Message) → ReportsNothing messages → anchored print messages ≡ none
  unfolding anchored or_here
  anchored-ReportsNothing [] h = refl
  anchored-ReportsNothing (m ∷ messages) h =
      rw (anchored-ReportsNothing messages h.1, no-anchor m h.0) refl

  anchored-append :
      (before : List Message) (m : Message) (after : List Message) (u : Usage)
      → m.role ≡ "assistant"
      → m.usage ≡ some u
      → ReportsNothing after
      → anchored print (before ++ m ∷ after) ≡ some (used print u + estimate_all print after)
  unfolding anchored or_here
  anchored-append [] m after u role e h =
      rw (anchored-ReportsNothing after h, an-anchor m u role e) refl
  anchored-append (b ∷ before) m after u role e h =
      rw (anchored-append before m after u role e h) refl

  -- The last message of the role `assistant` that reports its usage decides the estimate, whatever
  -- stands in front of it. The estimate is the sum, in 64 bits, of the input, output, cache-read and
  -- cache-write tokens of that usage and of the costs of the messages behind it: for each, a token for
  -- four bytes of the texts of its content and of the names and printed arguments of its calls, a part
  -- of four counted whole, and 1200 for each image.
  pub estimate_context_tokens-append :
      (before : List Message) (m : Message) (after : List Message) (u : Usage)
      → m.role ≡ "assistant"
      → m.usage ≡ some u
      → ReportsNothing after
      → estimate_context_tokens print (before ++ m ∷ after)
        ≡ (u.input_tokens
            + u.output_tokens
            + u.cache_read_tokens
            + u.cache_write_tokens
            + costs after)
          % 2 ^ 64
  unfolding estimate_context_tokens or_all used
  estimate_context_tokens-append before m after u role e h =
      rw (anchored-append before m after u role e h, estimate_all-costs after) refl

-- ===== src/Session/Build.antt =====
-- `build_context` of session.rs against a description of the log by its parts.
use Prim.Native.String.{◌++◌ as text_append}
use modular_agent_core.Prelude.{
  ℕ, String, ◌≡◌, ◌≢◌, refl, ap, ◌∙◌, Bool, true, false, Option, none, some, List, [], ◌∷◌, ◌++◌,
  any, arith, ◌==◌, eq_iff,
}
use modular_agent_core.Llm.{Message, user}
use modular_agent_core.Session.{
  SessionEntry, message, compaction, Compaction, messages, last_compaction, from_message, or_behind,
  compacted, build_context,
}

abbrev pub is_compaction : SessionEntry → Bool
is_compaction (message _ _ _ _) = false
is_compaction (compaction _ _ _ _ _ _) = true

abbrev pub is_message : String → SessionEntry → Bool
is_message id (message j _ _ _) = j == id
is_message id (compaction _ _ _ _ _ _) = false

abbrev pub summary_message : String → Message
summary_message summary = user (text_append "[Conversation summary]\n" summary)

last_compaction-none :
    (entries : List SessionEntry)
    → any is_compaction entries ≡ false
    → last_compaction entries ≡ none
unfolding last_compaction
last_compaction-none [] h = refl
last_compaction-none (message _ _ _ _ ∷ entries) h = last_compaction-none entries h
last_compaction-none (compaction _ _ _ _ _ _ ∷ entries) h = cc

last_compaction-append :
    (before : List SessionEntry) (id : String) (p : Option String) (t summary kept : String)
    (n : Option ℕ) (behind : List SessionEntry)
    → any is_compaction behind ≡ false
    → last_compaction (before ++ compaction id p t summary kept n ∷ behind)
      ≡ some (record { summary = summary; first_kept_id = kept; behind = behind })
unfolding last_compaction
last_compaction-append [] id p t summary kept n behind h =
    ground (arith, last_compaction-none behind h)
last_compaction-append (message _ _ _ _ ∷ before) id p t summary kept n behind h =
    last_compaction-append before id p t summary kept n behind h
last_compaction-append (compaction _ _ _ _ _ _ ∷ before) id p t summary kept n behind h =
    ground (arith, last_compaction-append before id p t summary kept n behind h)

from_message-none :
    (kept : String) (entries : List SessionEntry)
    → any (is_message kept) entries ≡ false
    → from_message kept entries ≡ none
unfolding from_message
from_message-none kept [] h = refl
from_message-none kept (message id p t m ∷ entries) h =
    ground (arith, from_message-none kept entries)
from_message-none kept (compaction _ _ _ _ _ _ ∷ entries) h = from_message-none kept entries h

from_message-append :
    (kept : String) (front : List SessionEntry) (p : Option String) (t : String) (m : Message)
    (rest : List SessionEntry)
    → any (is_message kept) front ≡ false
    → from_message kept (front ++ message kept p t m ∷ rest) ≡ some (message kept p t m ∷ rest)
unfolding from_message
from_message-append kept [] p t m rest h = ground (arith, eq_iff kept kept)
from_message-append kept (message id _ _ _ ∷ front) p t m rest h =
    ground (arith, from_message-append kept front p t m rest)
from_message-append kept (compaction _ _ _ _ _ _ ∷ front) p t m rest h =
    from_message-append kept front p t m rest h

-- Where the last compaction of a log names a message of the log, the context is the summary, that
-- message and every message behind it, whether they stand in front of the compaction or behind it.
pub build_context-kept :
    (entries before behind front rest : List SessionEntry) (id : String) (p : Option String)
    (t summary kept : String) (n : Option ℕ) (q : Option String) (u : String) (m : Message)
    → entries ≡ before ++ compaction id p t summary kept n ∷ behind
    → any is_compaction behind ≡ false
    → entries ≡ front ++ message kept q u m ∷ rest
    → any (is_message kept) front ≡ false
    → build_context entries ≡ summary_message summary ∷ m ∷ messages rest
unfolding build_context compacted or_behind messages
build_context-kept entries before behind front rest id p t summary kept n q u m e h e' h' =
    let last =
      ap last_compaction e ∙ last_compaction-append before id p t summary kept n behind h in
    let found = ap (from_message kept) e' ∙ from_message-append kept front q u m rest h' in
    rw (last, found) refl

-- Where the log holds no message that its last compaction names, the context is the summary and the
-- messages behind that compaction.
pub build_context-fallback :
    (before behind : List SessionEntry) (id : String) (p : Option String) (t summary kept : String)
    (n : Option ℕ)
    → any is_compaction behind ≡ false
    → any (is_message kept) (before ++ compaction id p t summary kept n ∷ behind) ≡ false
    → build_context (before ++ compaction id p t summary kept n ∷ behind)
      ≡ summary_message summary ∷ messages behind
unfolding build_context compacted or_behind
build_context-fallback before behind id p t summary kept n h none_kept =
    rw
      (
        last_compaction-append before id p t summary kept n behind h,
        from_message-none kept (before ++ compaction id p t summary kept n ∷ behind) none_kept,
      )
      refl

messages-append : (xs ys : List SessionEntry) → messages (xs ++ ys) ≡ messages xs ++ messages ys
unfolding messages
messages-append [] ys = refl
messages-append (message _ _ _ m ∷ xs) ys = ap (λ r. m ∷ r) (messages-append xs ys)
messages-append (compaction _ _ _ _ _ _ ∷ xs) ys = messages-append xs ys

abbrev with_behind : SessionEntry → Option Compaction → Option Compaction
with_behind e none = none
with_behind e (some c) = some (record c { behind = c.behind ++ e ∷ [] })

last_compaction-message :
    (xs : List SessionEntry) (id : String) (p : Option String) (t : String) (m : Message)
    → last_compaction (xs ++ message id p t m ∷ [])
      ≡ with_behind (message id p t m) (last_compaction xs)
unfolding last_compaction
last_compaction-message [] id p t m = refl
last_compaction-message (message _ _ _ _ ∷ xs) id p t m = last_compaction-message xs id p t m
last_compaction-message (compaction _ _ _ _ _ _ ∷ xs) id p t m =
    ground (arith, last_compaction-message xs id p t m)

abbrev grown : SessionEntry → Option (List SessionEntry) → Option (List SessionEntry)
grown e none = none
grown e (some l) = some (l ++ e ∷ [])

from_message-message :
    (kept : String) (xs : List SessionEntry) (id : String) (p : Option String) (t : String)
    (m : Message)
    → (id == kept) ≡ false
    → from_message kept (xs ++ message id p t m ∷ [])
      ≡ grown (message id p t m) (from_message kept xs)
unfolding from_message
from_message-message kept [] id p t m h = ground arith
from_message-message kept (message _ _ _ _ ∷ xs) id p t m h =
    ground (arith, from_message-message kept xs id p t m)
from_message-message kept (compaction _ _ _ _ _ _ ∷ xs) id p t m h =
    from_message-message kept xs id p t m h

-- The message that a compaction names.
abbrev pub kept_by : Option Compaction → Option String
kept_by none = none
kept_by (some c) = some c.first_kept_id

abbrev pub named : List SessionEntry → Option String
unfolding last_compaction
named entries = kept_by (last_compaction entries)

kept-message :
    (o : Option (List SessionEntry)) (behind : List SessionEntry) (id : String) (p : Option String)
    (t : String) (m : Message)
    → messages (or_behind (grown (message id p t m) o) (behind ++ message id p t m ∷ []))
      ≡ messages (or_behind o behind) ++ m ∷ []
unfolding or_behind messages
kept-message none behind id p t m = messages-append behind (message id p t m ∷ [])
kept-message (some l) behind id p t m = messages-append l (message id p t m ∷ [])

compacted-message :
    (o : Option Compaction) (xs : List SessionEntry) (id : String) (p : Option String) (t : String)
    (m : Message)
    → kept_by o ≢ some id
    → compacted (with_behind (message id p t m) o) (xs ++ message id p t m ∷ [])
      ≡ compacted o xs ++ m ∷ []
unfolding compacted messages
compacted-message none xs id p t m h = messages-append xs (message id p t m ∷ [])
compacted-message (some c) xs id p t m h =
    let other_id : (id == c.first_kept_id) ≡ false = ground (arith, h, eq_iff id c.first_kept_id) in
    rw (from_message-message c.first_kept_id xs id p t m other_id) (
      ap (λ l. summary_message c.summary ∷ l)
        (kept-message (from_message c.first_kept_id xs) c.behind id p t m))

-- A message is put behind the context when it is put behind the log, unless the last compaction of
-- the log names its id.
pub build_context-append :
    (entries : List SessionEntry) (id : String) (p : Option String) (t : String) (m : Message)
    → named entries ≢ some id
    → build_context (entries ++ message id p t m ∷ []) ≡ build_context entries ++ m ∷ []
unfolding build_context
build_context-append entries id p t m h =
    rw (last_compaction-message entries id p t m)
      (compacted-message (last_compaction entries) entries id p t m h)

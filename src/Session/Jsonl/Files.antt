-- ===== src/Session/Jsonl/Files.antt =====
-- What the files of a store hold when every append has ended, and how such a file is read.
use Prim.Native.String.{◌++◌ as text_append, ◌∷◌ as char_in_front, [] as no_text}
use text.Mathlib.TextLemmas.{
  nil-append as nil-text, cons-append as cons-text, append_assoc as text_assoc,
}
use modular_agent_core.Prelude.{ℕ, suc, String, ◌≡◌, refl, ap, ◌∙◌, true, List, [], ◌∷◌, ◌++◌}
use modular_agent_core.Text.{newline, complete_part, lines}
use modular_agent_core.Text.Lines.{
  is_one_line, is_fragment, complete_part-line, complete_part-fragment, lines-line,
}
use modular_agent_core.Error.{ok}
use modular_agent_core.Session.{SessionMeta, SessionEntry}
use modular_agent_core.Session.Spec.{Session}
use modular_agent_core.Session.Jsonl.{done, Format, read_entries, read_lines}

-- A line, and what ends it.
abbrev pub ended : String → String
ended line = text_append line (char_in_front newline no_text)

module _ (format : Format) where
  -- The entry is written as one line, which reads back as the entry.
  pub record IsWritable (entry : SessionEntry) : Type 0 where
    pub line : String
    pub written : format.write_entry entry ≡ done line
    pub one_line : is_one_line line ≡ true
    pub reads_back : format.read_entry line ≡ done entry

  -- So for a header.
  pub record IsMetaWritable (meta : SessionMeta) : Type 0 where
    pub line : String
    pub written : format.write_meta meta ≡ done line
    pub one_line : is_one_line line ≡ true
    pub reads_back : format.read_meta line ≡ done meta

  -- The lines of the entries, in a text.
  pub data Holds : List SessionEntry → String → Type 0 where
    nothing : Holds [] ""
    more :
        {entries : List SessionEntry} {s : String} (entry : SessionEntry) (w : IsWritable entry)
        → Holds entries s
        → Holds (entry ∷ entries) (text_append w.line (char_in_front newline s))

  pub Holds-append :
      {entries : List SessionEntry} {s : String} (entry : SessionEntry) (w : IsWritable entry)
      → Holds entries s
      → Holds (entries ++ entry ∷ []) (text_append s (ended w.line))
  Holds-append entry w nothing = rw (nil-text (ended w.line)) (more entry w nothing)
  Holds-append entry w (more {s} e w' h) =
      rw
        (
          text_assoc w'.line (char_in_front newline s) (ended w.line),
          cons-text newline s (ended w.line),
        )
        (more e w' (Holds-append entry w h))

  complete_part-Holds :
      {entries : List SessionEntry} {s : String} (fragment : String)
      → is_fragment fragment ≡ true
      → Holds entries s
      → complete_part (text_append s fragment) ≡ s
  complete_part-Holds fragment f nothing =
      rw (nil-text fragment) (complete_part-fragment fragment f)
  complete_part-Holds fragment f (more {s} e w h) =
      rw (text_assoc w.line (char_in_front newline s) fragment, cons-text newline s fragment)
        (complete_part-line w.line (text_append s fragment)
          ∙ ap (λ t. text_append w.line (char_in_front newline t))
              (complete_part-Holds fragment f h))

  read_entries-Holds :
      {entries : List SessionEntry} {s : String} (id : String) (n : ℕ)
      → Holds entries s
      → read_entries format id n (lines s) ≡ ok entries
  unfolding read_entries lines
  read_entries-Holds id n nothing = refl
  read_entries-Holds {entries} id n (more {s} e w h) =
      rw (lines-line w.line s w.one_line, w.reads_back, read_entries-Holds id (suc n) h) refl

  -- A whole file: the header's line, and those of the entries.
  pub record HoldsSession (session : Session) (s : String) : Type 0 where
    pub meta : IsMetaWritable session.0
    pub rest : String
    pub entries : Holds session.1 rest
    pub whole : s ≡ text_append meta.line (char_in_front newline rest)

  pub complete_part-HoldsSession :
      {session : Session} {s : String} (fragment : String)
      → is_fragment fragment ≡ true
      → HoldsSession session s
      → complete_part (text_append s fragment) ≡ s
  complete_part-HoldsSession fragment f h =
      rw
        (
          h.whole,
          text_assoc h.meta.line (char_in_front newline h.rest) fragment,
          cons-text newline h.rest fragment,
        )
        (complete_part-line h.meta.line (text_append h.rest fragment)
          ∙ ap (λ t. text_append h.meta.line (char_in_front newline t))
              (complete_part-Holds fragment f h.entries))

  pub read_lines-HoldsSession :
      {session : Session} {s : String} (id : String)
      → HoldsSession session s
      → read_lines format id (lines s) ≡ ok session.1
  unfolding read_lines
  read_lines-HoldsSession id h =
      rw (h.whole, lines-line h.meta.line h.rest h.meta.one_line, h.meta.reads_back)
        (read_entries-Holds id 2 h.entries)

  pub HoldsSession-append :
      {session : Session} {s : String} (entry : SessionEntry) (w : IsWritable entry)
      → HoldsSession session s
      → HoldsSession (session.0, session.1 ++ entry ∷ []) (text_append s (ended w.line))
  HoldsSession-append entry w h = record {
    meta = h.meta;
    rest = text_append h.rest (ended w.line);
    entries = Holds-append entry w h.entries;
    whole =
        rw
          (
            h.whole,
            text_assoc h.meta.line (char_in_front newline h.rest) (ended w.line),
            cons-text newline h.rest (ended w.line),
          )
          refl;
  }

  pub HoldsSession-new :
      (meta : SessionMeta) (w : IsMetaWritable meta) → HoldsSession (meta, []) (ended w.line)
  HoldsSession-new meta w = record { meta = w; rest = ""; entries = nothing; whole = refl }

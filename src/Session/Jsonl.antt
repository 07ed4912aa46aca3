-- ===== src/Session/Jsonl.antt =====
-- `JsonlSessionStore` of session.rs over a directory of files. The serialisation is an argument, and
-- of the errors of a file system those are modelled that the source tells apart: a file is there or
-- not, and it is UTF-8 or not.
pub mod Files
pub mod Refines
pub mod Crash
use Prim.Native.String.{◌++◌ as text_append, ◌∷◌ as char_in_front, [] as no_text}
use modular_agent_core.Prelude.{
  ℕ, suc, String, Bool, true, false, ◌||◌, Option, none, some, List, [], ◌∷◌, ◌++◌, ◌==◌,
  if◌then◌else◌,
}
use modular_agent_core.Text.{newline, is_newline, complete_part, lines, trim_end}
use modular_agent_core.IndexMap
use modular_agent_core.IndexMap.{IndexMap}
use modular_agent_core.Decimal.{to_string}
use modular_agent_core.Error.{
  AgentError, duplicate_id, serialization_error, io_error, json_parse_error, Result, ok, err, ◌>>=◌,
}
use modular_agent_core.Session.{SessionMeta, SessionEntry, session_not_found}

-- What `serde_json` returns, with the text of its error.
pub data Json {ℓ} (A : Type ℓ) : Type ℓ where
  done : A → Json A
  failed : String → Json A

pub record Format : Type 0 where
  pub write_meta : SessionMeta → Json String
  pub write_entry : SessionEntry → Json String
  pub read_meta : String → Json SessionMeta
  pub read_entry : String → Json SessionEntry

-- What a file holds: a text, or a text with bytes behind it that no UTF-8 text goes on with.
pub data Contents : Type 0 where
  utf8 : String → Contents
  broken : (head : String) → Contents

-- The directory of the store: the names of its files with what they hold, `none` before it is there.
abbrev pub Disk : Type 0
Disk = Option (IndexMap Contents)

abbrev pub files : Disk → IndexMap Contents
files none = IndexMap.empty
files (some fs) = fs

-- The name of a session's file in the directory. An id holds no path separator.
unfoldable pub session_path : String → String
session_path session_id = text_append session_id ".jsonl"

abbrev map_err {ℓ} : {A : Type ℓ} → Json A → (String → AgentError) → Result A
map_err (done a) e = ok a
map_err (failed message) e = err (e message)

abbrev with_line : String → Contents → Contents
with_line line (utf8 s) = utf8 (text_append s (text_append line (char_in_front newline no_text)))
with_line line (broken s) = broken s

abbrev write_line :
    String
    → Contents
    → Json String
    → (String → AgentError)
    → IndexMap Contents
    → Result (Unit {0}) × Disk
write_line path old (done line) e fs = (ok tt, some (IndexMap.insert fs path (with_line line old)))
write_line path old (failed message) e fs = (err (e message), some (IndexMap.insert fs path old))

abbrev returning : String → Result (Unit {0}) × Disk → Result String × Disk
returning id (ok u, disk) = (ok id, disk)
returning id (err e, disk) = (err e, disk)

-- The extension of a name with something in front of its last dot.
is_jsonl : String → Bool
is_jsonl no_text = false
is_jsonl (char_in_front c s) = let later = is_jsonl s in s == ".jsonl" || later

-- `read_line`: up to the first `\n`, with it.
first_line : String → String
first_line no_text = no_text
first_line (char_in_front c s) =
    let later = first_line s in
    if is_newline c then char_in_front c no_text else char_in_front c later

has_newline : String → Bool
has_newline no_text = false
has_newline (char_in_front c s) = let later = has_newline s in is_newline c || later

-- A line that runs into broken bytes cannot be read.
header_of : Contents → Option String
unfolding first_line has_newline
header_of (utf8 s) = some (first_line s)
header_of (broken s) = if has_newline s then some (first_line s) else none

module _ (format : Format) where
  -- The file is created before its header is serialised.
  create_file : Option Contents → SessionMeta → IndexMap Contents → Result String × Disk
  create_file (some old) meta fs = (err (duplicate_id meta.id), some fs)
  create_file none meta fs = returning meta.id (
      write_line (session_path meta.id) (utf8 "") (format.write_meta meta)
        (λ e. serialization_error (text_append "Failed to serialize meta: " e)) fs)

  unfoldable pub create : SessionMeta → Disk → Result String × Disk
  unfolding create_file session_path
  create meta disk =
      create_file (IndexMap.get (files disk) (session_path meta.id)) meta (files disk)

  append_file : Option Contents → String → SessionEntry → Disk → Result (Unit {0}) × Disk
  append_file none id entry disk = (err (session_not_found id), disk)
  append_file (some old) id entry disk =
      write_line (session_path id) old (format.write_entry entry)
        (λ e. serialization_error (text_append "Failed to serialize entry: " e)) (files disk)

  unfoldable pub append : String → SessionEntry → Disk → Result (Unit {0}) × Disk
  unfolding append_file session_path
  append id entry disk = append_file (IndexMap.get (files disk) (session_path id)) id entry disk

  -- The entries from line `n` on.
  read_entries : String → ℕ → List String → Result (List SessionEntry)
  read_entries id n [] = ok []
  read_entries id n (line ∷ rest) = do
    entry ← map_err (format.read_entry line) (λ e. json_parse_error (
        text_append "Invalid entry at line " (
          text_append (to_string n)
            (text_append " of session " (text_append id (text_append ": " e))))))
    entries ← read_entries id (suc n) rest
    ok (entry ∷ entries)

  pub read_lines : String → List String → Result (List SessionEntry)
  unfolding read_entries
  read_lines id [] = err (
      json_parse_error
        (text_append "Session file for " (text_append id " is empty (missing header line)")))
  read_lines id (header ∷ rest) = do
    meta ← map_err (format.read_meta header) (λ e.
        json_parse_error
          (text_append "Invalid session header for " (text_append id (text_append ": " e))))
    read_entries id 2 rest

  -- What follows the last `\n` is cut off in the file, too.
  pub load_file : Option Contents → String → Disk → Result (List SessionEntry) × Disk
  unfolding read_lines
  load_file none id disk = (err (session_not_found id), disk)
  load_file (some (broken s)) id disk =
      (err (io_error "Failed to read session file: stream did not contain valid UTF-8"), disk)
  load_file (some (utf8 s)) id disk = (
    read_lines id (lines (complete_part s)),
    if complete_part s == s
        then disk
        else some (IndexMap.insert (files disk) (session_path id) (utf8 (complete_part s))),
  )

  unfoldable pub load : String → Disk → Result (List SessionEntry) × Disk
  unfolding load_file session_path
  load id disk = load_file (IndexMap.get (files disk) (session_path id)) id disk

  -- A header that is empty or does not parse is passed over.
  add_meta : Option String → List SessionMeta → List SessionMeta
  add_meta none metas = metas
  add_meta (some no_text) metas = metas
  add_meta (some (char_in_front c s)) metas =
      elim (format.read_meta (trim_end (char_in_front c s))) [
        | done meta ↦ meta ∷ metas
        | failed message ↦ metas
      ]

  list_files : List (String × Contents) → List SessionMeta
  unfolding add_meta header_of is_jsonl
  list_files [] = []
  list_files ((name, contents) ∷ rest) =
      let metas = list_files rest in
      if is_jsonl name then add_meta (header_of contents) metas else metas

  -- The files come in an order that the directory chooses.
  unfoldable pub list : Disk → Result (List SessionMeta)
  unfolding list_files
  list disk = ok (list_files (files disk).entries)

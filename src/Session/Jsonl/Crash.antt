-- ===== src/Session/Jsonl/Crash.antt =====
-- A store in files of session.rs after a crash: the file of a session ends inside a line.
use Prim.Native.String.{◌++◌ as text_append}
use text.Mathlib.TextLemmas.{append_cancel_left, append-nil}
use modular_agent_core.Prelude.{
  String, ◌≡◌, ◌≢◌, refl, sym, ◌∙◌, true, false, Bool-cases, Option, none, some, inl, inr, List, [],
  ◌∷◌, ◌==◌, eq_iff, if◌then◌else◌,
}
use modular_agent_core.Text.{complete_part}
use modular_agent_core.Text.Lines.{is_fragment}
use modular_agent_core.IndexMap
use modular_agent_core.IndexMap.{IndexMap, get-insert}
use modular_agent_core.Error.{AgentError, io_error, Result, ok, err}
use modular_agent_core.Session.{SessionMeta, SessionEntry}
use modular_agent_core.Session.Spec.{Op, create, append, load, Session}
use modular_agent_core.Session.Jsonl
use modular_agent_core.Session.Jsonl.{
  Json, done, failed, Format, Contents, utf8, broken, Disk, files, session_path, with_line,
  write_line, returning, create_file, append_file, load_file,
}
use modular_agent_core.Session.Jsonl.Files.{
  HoldsSession, complete_part-HoldsSession, read_lines-HoldsSession,
}
use modular_agent_core.Session.Jsonl.Refines.{call, path-eq}

append-ne : (s t : String) → t ≢ "" → (s == text_append s t) ≡ false
append-ne s t h = elim (Bool-cases (s == text_append s t)) [
  | inl e ↦
      let same = append-nil s ∙ (eq_iff s (text_append s t)).0 e in
      absurd (h (sym (append_cancel_left s "" t same)))
  | inr e ↦ e
]

-- Where a crash left a part of a line behind a session, a load returns the entries of the session and
-- cuts that part off its file; every other file is as before.
pub load-crash :
    (format : Format) (id : String) (session : Session) (s fragment j : String) (disk : Disk)
    → IndexMap.get (files disk) (session_path id) ≡ some (utf8 (text_append s fragment))
    → HoldsSession format session s
    → is_fragment fragment ≡ true
    → fragment ≢ ""
    → ((Jsonl.load format id disk).0 ≡ ok session.1)
      × (IndexMap.get (files (Jsonl.load format id disk).1) (session_path j)
          ≡ (if id == j then some (utf8 s) else IndexMap.get (files disk) (session_path j)))
unfolding Jsonl.load load_file
load-crash format id session s fragment j disk e holds f longer =
    let kept = complete_part-HoldsSession format fragment f holds in
    let cut = append-ne s fragment longer in
    rw
      (
        e,
        kept,
        cut,
        get-insert (files disk) (session_path id) (session_path j) (utf8 s),
        path-eq id j,
      )
      (read_lines-HoldsSession format id holds, refl)

abbrev pub run_calls : Format → List Op → Disk → Disk
run_calls format [] disk = disk
run_calls format (op ∷ ops) disk = run_calls format ops (call format op disk).1

abbrev IsBroken : String → String → Disk → Type 0
IsBroken id head disk = IndexMap.get (files disk) (session_path id) ≡ some (broken head)

-- A write to another file leaves it so, and so does a write to the file itself.
write-IsBroken_other :
    (id j head : String) (old : Contents) (r : Json String) (e : String → AgentError)
    (fs : IndexMap Contents)
    → (j == id) ≡ false
    → IndexMap.get fs (session_path id) ≡ some (broken head)
    → IsBroken id head (write_line (session_path j) old r e fs).1
write-IsBroken_other id j head old (done line) e fs n h =
    rw (get-insert fs (session_path j) (session_path id) (with_line line old), path-eq j id, n) h
write-IsBroken_other id j head old (failed message) e fs n h =
    rw (get-insert fs (session_path j) (session_path id) old, path-eq j id, n) h

write-IsBroken_self :
    (id head : String) (r : Json String) (e : String → AgentError) (fs : IndexMap Contents)
    → IsBroken id head (write_line (session_path id) (broken head) r e fs).1
write-IsBroken_self id head (done line) e fs =
    rw
      (
        get-insert fs (session_path id) (session_path id) (broken head),
        path-eq id id,
        (eq_iff id id).1 refl,
      )
      refl
write-IsBroken_self id head (failed message) e fs =
    rw
      (
        get-insert fs (session_path id) (session_path id) (broken head),
        path-eq id id,
        (eq_iff id id).1 refl,
      )
      refl

returning-disk : (id : String) (r : Result (Unit {0}) × Disk) → (returning id r).1 ≡ r.1
returning-disk id (ok u, disk) = refl
returning-disk id (err e, disk) = refl

module _ (format : Format) where
  create-IsBroken :
      (o : Option Contents) (meta : SessionMeta) (id head : String) (fs : IndexMap Contents)
      → IndexMap.get fs (session_path meta.id) ≡ o
      → IndexMap.get fs (session_path id) ≡ some (broken head)
      → IsBroken id head (create_file format o meta fs).1
  unfolding create_file
  create-IsBroken (some old) meta id head fs e h = h
  create-IsBroken none meta id head fs e h = elim (Bool-cases (meta.id == id)) [
    | inl same ↦ let missing = rw ((eq_iff meta.id id).0 same) at e in absurd (cc)
    | inr other ↦
        rw returning-disk
          (write-IsBroken_other id meta.id head (utf8 "") (format.write_meta meta) _ fs other h)
  ]

  append-IsBroken :
      (o : Option Contents) (j : String) (entry : SessionEntry) (id head : String) (disk : Disk)
      → IndexMap.get (files disk) (session_path j) ≡ o
      → IsBroken id head disk
      → IsBroken id head (append_file format o j entry disk).1
  unfolding append_file
  append-IsBroken none j entry id head disk e h = h
  append-IsBroken (some old) j entry id head disk e h = elim (Bool-cases (j == id)) [
    | inl same ↦
        let q = (eq_iff j id).0 same in
        let o : old ≡ broken head = cc in
        rw (q, o) (write-IsBroken_self id head (format.write_entry entry) _ (files disk))
    | inr other ↦
        write-IsBroken_other id j head old (format.write_entry entry) _ (files disk) other h
  ]

  load-IsBroken :
      (o : Option Contents) (j id head : String) (disk : Disk)
      → IndexMap.get (files disk) (session_path j) ≡ o
      → IsBroken id head disk
      → IsBroken id head (load_file format o j disk).1
  unfolding load_file
  load-IsBroken none j id head disk e h = h
  load-IsBroken (some (broken s)) j id head disk e h = h
  load-IsBroken (some (utf8 s)) j id head disk e h = elim (Bool-cases (j == id)) [
    | inl same ↦ let q = (eq_iff j id).0 same in absurd (cc)
    | inr other ↦ elim (Bool-cases (complete_part s == s)) [
      | inl whole ↦ rw whole h
      | inr longer ↦
          rw
            (
              longer,
              get-insert (files disk) (session_path j) (session_path id) (utf8 (complete_part s)),
              path-eq j id,
              other,
            )
            h
    ]
  ]

  call-IsBroken :
      (op : Op) (id head : String) (disk : Disk)
      → IsBroken id head disk
      → IsBroken id head (call format op disk).1
  unfolding call Jsonl.create Jsonl.append Jsonl.load
  call-IsBroken (create meta) id head disk h = create-IsBroken _ meta id head (files disk) refl h
  call-IsBroken (append j entry) id head disk h = append-IsBroken _ j entry id head disk refl h
  call-IsBroken (load j) id head disk h = load-IsBroken _ j id head disk refl h

  run_calls-IsBroken :
      (ops : List Op) (id head : String) (disk : Disk)
      → IsBroken id head disk
      → IsBroken id head (run_calls format ops disk)
  run_calls-IsBroken [] id head disk h = h
  run_calls-IsBroken (op ∷ ops) id head disk h =
      run_calls-IsBroken ops id head (call format op disk).1 (call-IsBroken op id head disk h)

-- Where a crash left a part of a character in the file of a session, no sequence of calls on the store
-- makes the session readable again: each later load fails.
pub load-broken :
    (format : Format) (ops : List Op) (id head : String) (disk : Disk)
    → IndexMap.get (files disk) (session_path id) ≡ some (broken head)
    → (Jsonl.load format id (run_calls format ops disk)).0
      ≡ err (io_error "Failed to read session file: stream did not contain valid UTF-8")
unfolding Jsonl.load load_file
load-broken format ops id head disk h = rw (run_calls-IsBroken format ops id head disk h) refl

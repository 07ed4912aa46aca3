-- ===== src/Session/Jsonl/Refines.antt =====
-- The store in files of session.rs answers every sequence of calls as the logs do, if what it writes
-- is read back.
use text.Mathlib.TextLemmas.{append_cancel_right, nil-append, append-nil}
use Prim.Native.String.{◌++◌ as text_append}
use modular_agent_core.Prelude.{
  String, ◌≡◌, refl, sym, ap, ◌∙◌, All, Bool-cases, Option, none, some, inl, inr, List, [], ◌∷◌,
  ◌++◌, arith, ◌==◌, eq_iff,
}
use modular_agent_core.Text.{complete_part}
use modular_agent_core.IndexMap
use modular_agent_core.IndexMap.{get-insert, get-empty}
use modular_agent_core.Session.{SessionMeta, SessionEntry}
use modular_agent_core.Session.Spec
use modular_agent_core.Session.Spec.{
  Op, create, append, load, Reply, created, appended, loaded, Session, Log, step, update, create_in,
  append_in, load_in, run, Simulates, run-Simulates,
}
use modular_agent_core.Session.Jsonl
use modular_agent_core.Session.Jsonl.{
  Json, done, failed, Format, Contents, utf8, broken, Disk, files, session_path, with_line,
  write_line, returning, create_file, append_file, load_file,
}
use modular_agent_core.Session.Jsonl.Files.{
  ended, IsWritable, IsMetaWritable, HoldsSession, complete_part-HoldsSession,
  read_lines-HoldsSession, HoldsSession-append, HoldsSession-new,
}

pub path-eq : (a b : String) → (session_path a == session_path b) ≡ (a == b)
unfolding session_path
path-eq a b = elim (Bool-cases (a == b)) [
  | inl e ↦
      rw
        (
          (eq_iff a b).0 e,
          (eq_iff b b).1 refl,
          (eq_iff (text_append b ".jsonl") (text_append b ".jsonl")).1 refl,
        )
        refl
  | inr e ↦ elim (Bool-cases (text_append a ".jsonl" == text_append b ".jsonl")) [
    | inl f ↦
        let same : a ≡ b = append_cancel_right a b ".jsonl" ((eq_iff _ _).0 f) in
        ground (arith, same, eq_iff a b)
    | inr f ↦ rw (e, f) refl
  ]
]

module _ (format : Format) where
  unfoldable pub call : Op → Disk → Reply × Disk
  call (create meta) disk = let (r, disk') = Jsonl.create format meta disk in (created r, disk')
  call (append id entry) disk =
      let (r, disk') = Jsonl.append format id entry disk in (appended r, disk')
  call (load id) disk = let (r, disk') = Jsonl.load format id disk in (loaded r, disk')

  -- What a call writes is read back.
  abbrev pub IsAllowed : Op → Type 0
  IsAllowed (create meta) = IsMetaWritable format meta
  IsAllowed (append id entry) = IsWritable format entry
  IsAllowed (load id) = Unit

  data Matches : Option Contents → Option Session → Type 0 where
    no_file : Matches none none
    file :
        {session : Session} {s : String}
        → HoldsSession format session s
        → Matches (some (utf8 s)) (some session)

  abbrev StandsFor : Disk → Log → Type 0
  StandsFor disk log =
      (id : String) → Matches (IndexMap.get (files disk) (session_path id)) (log id)

  -- A file is written, and every other stays.
  StandsFor-insert :
      (id : String) (s : String) (session : Session) (disk : Disk) (log : Log)
      → HoldsSession format session s
      → StandsFor disk log
      → StandsFor
          (some (IndexMap.insert (files disk) (session_path id) (utf8 s)))
          (update log id session)
  StandsFor-insert id s session disk log holds h j =
      rw (get-insert (files disk) (session_path id) (session_path j) (utf8 s), path-eq id j)
        (elim (Bool-cases (id == j)) [ inl e ↦ rw e (file holds) | inr e ↦ rw e (h j) ])

  create-call :
      {o : Option Contents} {p : Option Session} (meta : SessionMeta) (disk : Disk) (log : Log)
      → Matches o p
      → IsMetaWritable format meta
      → StandsFor disk log
      → (created (create_file format o meta (files disk)).0 ≡ (create_in p meta log).0)
        × StandsFor (create_file format o meta (files disk)).1 (create_in p meta log).1
  unfolding create_file
  create-call meta disk log no_file w h =
      rw (w.written, nil-append (ended w.line))
        (
          refl,
          StandsFor-insert meta.id (ended w.line) (meta, []) disk log
              (HoldsSession-new format meta w) h,
        )
  create-call meta disk log (file holds) w h = (refl, h)

  append-call :
      {o : Option Contents} {p : Option Session} (id : String) (entry : SessionEntry) (disk : Disk)
      (log : Log)
      → Matches o p
      → IsWritable format entry
      → StandsFor disk log
      → (appended (append_file format o id entry disk).0 ≡ (append_in p id entry log).0)
        × StandsFor (append_file format o id entry disk).1 (append_in p id entry log).1
  unfolding append_file
  append-call id entry disk log no_file w h = (refl, h)
  append-call id entry disk log (file {session} {s} holds) w h = rw w.written (
    refl,
    StandsFor-insert id (text_append s (ended w.line)) (session.0, session.1 ++ entry ∷ []) disk log
        (HoldsSession-append format entry w holds) h,
  )

  load-call :
      {o : Option Contents} {p : Option Session} (id : String) (disk : Disk) (log : Log)
      → Matches o p
      → StandsFor disk log
      → (loaded (load_file format o id disk).0 ≡ (load_in p id log).0)
        × StandsFor (load_file format o id disk).1 (load_in p id log).1
  unfolding load_file
  load-call id disk log no_file h = (refl, h)
  load-call id disk log (file {s} holds) h =
      let all_complete : complete_part s ≡ s =
        ap complete_part (sym (append-nil s)) ∙ complete_part-HoldsSession format "" refl holds in
      rw (all_complete, (eq_iff s s).1 refl, read_lines-HoldsSession format id holds) (refl, h)

  call-Simulates : Simulates call IsAllowed StandsFor
  unfolding call Jsonl.create Jsonl.append Jsonl.load
  call-Simulates = record { at = at }
    where
      at :
          (op : Op) (disk : Disk) (log : Log)
          → IsAllowed op
          → StandsFor disk log
          → ((call op disk).0 ≡ (step op log).0) × StandsFor (call op disk).1 (step op log).1
      at (create meta) disk log w h = create-call meta disk log (h meta.id) w h
      at (append id entry) disk log w h = append-call id entry disk log (h id) w h
      at (load id) disk log w h = load-call id disk log (h id) h

  -- If what is written is read back, a store in files that starts with no directory answers every
  -- sequence of calls as the logs do, errors included.
  pub jsonl_refines :
      (ops : List Op) → All IsAllowed ops → run call ops none ≡ run step ops Spec.empty
  jsonl_refines ops a =
      run-Simulates call-Simulates ops none Spec.empty a
        (λ id. rw (get-empty (session_path id)) no_file)

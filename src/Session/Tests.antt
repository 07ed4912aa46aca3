-- ===== src/Session/Tests.antt =====
-- A session of two messages with a compaction between them.
use modular_agent_core.Prelude.{
  String, ◌≡◌, refl, ◌≢◌, ap, true, eq_iff, Option, none, some, [], ◌∷◌, ◌++◌, ◌==◌, if◌then◌else◌,
}
use modular_agent_core.IndexMap
use modular_agent_core.Error.{io_error, ok, err}
use modular_agent_core.Llm.{user}
use modular_agent_core.Session.{
  SessionMeta, SessionEntry, message, compaction, new_meta, last_compaction, messages,
  build_context,
}
use modular_agent_core.Session.Build.{
  named, summary_message, build_context-kept, build_context-append,
}
use modular_agent_core.Session.Spec
use modular_agent_core.Session.Spec.{create, append, load, Session, step, run}
use modular_agent_core.Session.Memory.Refines.{call as call_memory, memory_refines}
use modular_agent_core.Session.Jsonl
use modular_agent_core.Session.Jsonl.{done, Format, utf8, broken, Disk, files, session_path}
use modular_agent_core.Session.Jsonl.Files.{IsWritable, IsMetaWritable, HoldsSession-new, ended}
use modular_agent_core.Session.Jsonl.Refines.{call, jsonl_refines}
use modular_agent_core.Session.Jsonl.Crash.{run_calls, load-crash, load-broken}
use Prim.Native.String.{◌++◌ as text_append}

abbrev first : SessionEntry
first = message "1" none "t" (user "hello")

abbrev marker : SessionEntry
marker = compaction "2" none "t" "greetings" "1" none

abbrev second : SessionEntry
second = message "3" none "t" (user "bye")

build_context-kept_example :
    build_context (first ∷ marker ∷ second ∷ [])
    ≡ summary_message "greetings" ∷ user "hello" ∷ messages (marker ∷ second ∷ [])
build_context-kept_example =
    build_context-kept (first ∷ marker ∷ second ∷ []) (first ∷ []) (second ∷ []) []
      (marker ∷ second ∷ []) "2" none "t" "greetings" "1" none none "t" (user "hello") refl refl
      refl refl

three≢one : named (first ∷ marker ∷ []) ≢ some "3"
unfolding last_compaction
three≢one h =
    let bad : ("1" == "3") ≡ true =
      (eq_iff "1" "3").1 (ap (λ (o : Option String). elim o [ none ↦ "" | some id ↦ id ]) h) in
    cc

build_context-append_example :
    build_context ((first ∷ marker ∷ []) ++ second ∷ [])
    ≡ build_context (first ∷ marker ∷ []) ++ user "bye" ∷ []
build_context-append_example =
    build_context-append (first ∷ marker ∷ []) "3" none "t" (user "bye") three≢one

abbrev meta : SessionMeta
meta = new_meta "s" "now"

-- A format that is right about these two values.
abbrev format : Format
format = record {
  write_meta = λ m. done "meta";
  write_entry = λ e. done "entry";
  read_meta = λ line. done meta;
  read_entry = λ line. done first;
}

abbrev meta-IsWritable : IsMetaWritable format meta
meta-IsWritable = record { line = "meta"; written = refl; one_line = refl; reads_back = refl }

abbrev first-IsWritable : IsWritable format first
first-IsWritable = record { line = "entry"; written = refl; one_line = refl; reads_back = refl }

memory_refines_example :
    run call_memory (create meta ∷ append "s" first ∷ load "s" ∷ []) []
    ≡ run step (create meta ∷ append "s" first ∷ load "s" ∷ []) Spec.empty
memory_refines_example = memory_refines (create meta ∷ append "s" first ∷ load "s" ∷ [])

jsonl_refines_example :
    run (call format) (create meta ∷ append "s" first ∷ load "s" ∷ []) none
    ≡ run step (create meta ∷ append "s" first ∷ load "s" ∷ []) Spec.empty
jsonl_refines_example =
    jsonl_refines format (create meta ∷ append "s" first ∷ load "s" ∷ [])
      (meta-IsWritable, (first-IsWritable, (tt, tt)))

abbrev crashed : Disk
crashed =
    some
      (IndexMap.insert IndexMap.empty (session_path "s") (utf8 (text_append (ended "meta") "ent")))

crashed-file :
    IndexMap.get (files crashed) (session_path "s") ≡ some (utf8 (text_append (ended "meta") "ent"))
unfolding IndexMap.get IndexMap.insert IndexMap.empty session_path
crashed-file = refl

not-empty : ◌≢◌ {A = String} "ent" ""
not-empty h = cc

load-crash_example :
    ((Jsonl.load format "s" crashed).0 ≡ ok [])
    × (IndexMap.get (files (Jsonl.load format "s" crashed).1) (session_path "s") ≡ (
        if "s" == "s"
        then some (utf8 (ended "meta"))
        else IndexMap.get (files crashed) (session_path "s")))
load-crash_example =
    load-crash format "s" (meta, []) (ended "meta") "ent" "s" crashed crashed-file
      (HoldsSession-new format meta meta-IsWritable) refl not-empty

abbrev torn : Disk
torn = some (IndexMap.insert IndexMap.empty (session_path "s") (broken "meta"))

torn-file : IndexMap.get (files torn) (session_path "s") ≡ some (broken "meta")
unfolding IndexMap.get IndexMap.insert IndexMap.empty session_path
torn-file = refl

load-broken_example :
    (Jsonl.load format "s" (run_calls format (append "s" first ∷ []) torn)).0
    ≡ err (io_error "Failed to read session file: stream did not contain valid UTF-8")
load-broken_example = load-broken format (append "s" first ∷ []) "s" "meta" torn torn-file

-- ===== src/EventRing/Tests.antt =====
-- Two errors and an output, read one error at a time.
use modular_agent_core.Prelude.{◌≡◌, none, some, List, [], ◌∷◌, ◌++◌, retain, arith}
use modular_agent_core.Value.{AgentValue}
use modular_agent_core.EventRing.{new, of_preset, collect_errors}
use modular_agent_core.EventRing.Ascending.{after, cursor}
use modular_agent_core.EventRing.Paging.{
  Event, failed, put_out, push_all, error_seq, IsRing, push_all-IsRing, collect_errors-page,
}

abbrev events : List Event
events =
    failed 10 (some "p") "1" "lost"
    ∷ put_out 11 "out" AgentValue.unit
    ∷ failed 12 none "2" "late"
    ∷ []

push_all-IsRing_example : IsRing 3 (push_all new events)
push_all-IsRing_example = push_all-IsRing events (omega arith)

collect_errors-page_example :
    retain (of_preset none) (after error_seq 0 (push_all new events).errors)
    ≡ collect_errors (push_all new events) none 0 1
      ++ retain (of_preset none) (
          after error_seq
            (cursor error_seq 0 (collect_errors (push_all new events) none 0 1))
            (push_all new events).errors)
collect_errors-page_example = collect_errors-page events none 0 1 (omega arith)

-- ===== src/Examples/System.antt =====
-- The theorems about the running daemon at a concrete execution.
use bpfd.Prelude.{
  ◌≡◌, refl, true, some, List, [], ◌∷◌, ◌++◌, map, nat_eq, replicate, In, here, codes, text_beq,
  text_eq,
}
use bpfd.Grpc.{Event}
use bpfd.Rules.{matches}
use bpfd.Rules.Table.{find_rule}
use bpfd.Action.{list_actions}
use bpfd.Api.{Server}
use bpfd.Tracer.{returned}
use bpfd.Api.Loop.{Performed, complete, handle_event}
use bpfd.Api.Loop.Watch.{watch_round}
use bpfd.Api.Trace.Delivery.{start, run, poll}
use bpfd.Api.Trace.Progress.{busy, busy_starves}
use bpfd.System.{Input, event, create, remove, connect, perform, Reach, initially, step}
use bpfd.System.Traced.{copies, traced-copies}
use bpfd.Cli.Trace.{received, to_line, trace_loop}
use bpfd.Cli.Trace
use bpfd.Api.Loop.Laws.{rules_of}
use bpfd.System.Invariant.{IsServing, start-Reach-IsServing}
use bpfd.System.Actions.{Reports, IsJustified, performed-IsJustified, rule_actions_run}
use bpfd.Examples.Rules.{passwd, opened, decode, echo_host}
use bpfd.Examples.Api.{server, open_event, other_event, create_passwd, remove_passwd}
use bpfd.Examples.Daemon.{system, compiled_tracers, compiled_actions, started, start-started}

abbrev reported : Event
reported = complete echo_host (codes "open") open_event

-- the one event of the daemon, which its rule matches
abbrev printed : Performed
printed = (codes "stdout", reported) ∷ []

handled :
    perform echo_host (event (codes "open") (returned (some open_event))) started
    ≡ some (started, printed)
unfolding perform watch_round handle_event complete text_beq matches bpfd.GoMap.lookup
    bpfd.Strings.contains bpfd.Api.Loop.apply_rules
handled = refl

reached : Reach echo_host started printed started
reached = step initially (event (codes "open") (returned (some open_event))) started printed handled

has_stdout : In (codes "stdout") (list_actions compiled_actions)
unfolding list_actions
has_stdout = here refl

start-Reach-IsServing_example : IsServing started
start-Reach-IsServing_example =
    start-Reach-IsServing decode echo_host system compiled_tracers compiled_actions started started
      printed start-started has_stdout reached

performed-IsJustified_example :
    Reports echo_host reported (event (codes "open") (returned (some open_event)))
    × IsJustified started (codes "stdout") reported
performed-IsJustified_example =
    performed-IsJustified decode echo_host system compiled_tracers compiled_actions started started
      printed start-started has_stdout reached (event (codes "open") (returned (some open_event)))
      started printed (codes "stdout") reported handled (here refl)

found : find_rule started.rules (codes "open") (codes "passwd") ≡ some passwd
unfolding find_rule bpfd.GoMap.lookup text_beq
found = refl

reported_match : matches passwd opened reported.container_runtime ≡ true
unfolding complete matches text_beq bpfd.GoMap.lookup bpfd.Strings.contains
reported_match = refl

rule_actions_run_example :
    (u : Server) × (now : Performed) × (perform echo_host
        (event (codes "open") (returned (some open_event)))
        started
      ≡ some (u, now))
    × In (codes "stdout", reported) now
rule_actions_run_example =
    rule_actions_run decode echo_host system compiled_tracers compiled_actions started started
      printed start-started has_stdout reached (codes "open") (codes "passwd") open_event opened
      passwd (codes "stdout") refl found reported_match (here refl)

abbrev inputs : List Input
inputs =
    create create_passwd
    ∷ event (codes "open") (returned (some open_event))
    ∷ connect
    ∷ remove (some remove_passwd)
    ∷ []

abbrev waiting : Server
waiting = record server { events = open_event ∷ other_event ∷ [] }

busy_starves_example :
    run (busy (other_event ∷ other_event ∷ [])) (start waiting) ≡ record (start waiting) {
      accepted = [] ++ other_event ∷ other_event ∷ [];
      delivered = [] ++ other_event ∷ other_event ∷ [];
    }
busy_starves_example = busy_starves (other_event ∷ other_event ∷ []) (start waiting) refl

abbrev streaming : Server
streaming = record started { is_streaming = true; events = other_event ∷ [] }

traced-copies_example :
    (t : Server) × (done : Performed) × (handle_event echo_host
        (codes "open")
        (some open_event)
        streaming
      ≡ some (t, done))
    × (run (replicate (copies reported opened (rules_of (codes "open") streaming)) poll) (start t)
        ≡ record (start streaming) {
          delivered =
              replicate (copies reported opened (rules_of (codes "open") streaming)) reported;
        })
    × (trace_loop (
          map
            (λ x. received (some x))
            (run
              (replicate (copies reported opened (rules_of (codes "open") streaming)) poll)
              (start t)).delivered)
        ≡ (
          replicate
              (copies reported opened (rules_of (codes "open") streaming))
              (to_line reported opened),
          Trace.waiting,
        ))
traced-copies_example =
    traced-copies echo_host (codes "open") open_event opened streaming refl (here refl) refl refl

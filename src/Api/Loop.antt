-- ===== src/Api/Loop.antt =====
-- api/api.go: what the goroutine of a tracer that `NewServer` starts does with one event.
pub mod Laws
pub mod Matching
pub mod Readline
pub mod Watch
use bpfd.Prelude.{
  Option, none, some, List, [], ◌∷◌, ◌++◌, if◌then◌else◌, Eq, ◌==◌, nat_eq, is_empty, any, pos,
  Text, codes, text_eq,
}
use bpfd.Grpc.{Rule, Event}
use bpfd.GoMap.{lookup}
use bpfd.Proc.{Host}
use bpfd.Proc.Runtime.{get_container_runtime, name}
use bpfd.Proc.ContainerId.{get_container_id}
use bpfd.Rules.{matches}
use bpfd.Api.{Server, add_event}

-- The actions that were run, in order, each with its event.
abbrev pub Performed : Type 0
Performed = List (Text × Event)

-- `for _, a := range rule.Actions { … }`: an action that does not exist is skipped
unfoldable pub run_actions : List Text → List Text → Event → Performed
run_actions known [] event = []
run_actions known (a ∷ rest) event =
    if any (λ k. k == a) known
    then (a, event) ∷ run_actions known rest event
    else run_actions known rest event

-- `for _, rule := range progRules { … }`
unfoldable pub apply_rules :
    List (Text × Rule) → Event → List (Text × Text) → Server → Performed → Server × Performed
unfolding run_actions add_event
apply_rules [] event d s done = (s, done)
apply_rules ((n, rule) ∷ rules) event d s done =
    apply_rules rules event d
      (if matches rule d event.container_runtime then add_event event s else s)
      (if matches rule d event.container_runtime
        then done ++ run_actions s.actions rule.actions event
        else done)

-- the container runtime, the container ID and the tracer are filled in
unfoldable pub complete : Host → Text → Event → Event
complete h p event = record event {
  container_runtime =
      if is_empty event.container_runtime
      then name (get_container_runtime h (pos event.tgid) (pos event.pid))
      else event.container_runtime;
  container_id =
      if is_empty event.container_id
      then get_container_id h (pos event.tgid) (pos event.pid)
      else event.container_id;
  tracer = p;
}

-- One round of the goroutine of tracer `p`, from the event that `WatchEvent` returned. `none` is a
-- panic: the map of actions has no "stdout".
unfoldable pub handle_event : Host → Text → Option Event → Server → Option (Server × Performed)
handle_event h p none s = some (s, [])
handle_event h p (some event) s = elim event.event_data [
  | none ↦ some (s, [])
  | some d ↦
      let event' = complete h p event in
      elim (lookup p s.rules) [
        | none ↦
            if any (λ k. k == codes "stdout") s.actions
            then some (add_event event' s, (codes "stdout", event') ∷ [])
            else none
        | some rules ↦
            if is_empty rules
            then (if any (λ k. k == codes "stdout") s.actions
                then some (add_event event' s, (codes "stdout", event') ∷ [])
                else none)
            else some (apply_rules rules event' d s [])
      ]
]

-- ===== src/Api.antt =====
-- api/api.go and api/event.go: the server's state, its calls `CreateRule` and `RemoveRule`, and the
-- buffer of events. Each call holds `rulesMutex` or `eventsMutex` for its whole body, so it is one
-- step on the state. `ListRules`, `LiveTrace` and the goroutine of a tracer are in the modules below.
pub mod Events
pub mod Create
pub mod Remove
pub mod Listing
pub mod Trace
pub mod Loop
use bpfd.Prelude.{
  Bool, not, Option, none, some, List, [], ◌∷◌, ◌++◌, if◌then◌else◌, Eq, ◌==◌, nat_eq, is_empty,
  get_last?, init, Result, ok, err, Text, text_eq,
}
use bpfd.Grpc.{Rule, Event, CreateRuleRequest, RemoveRuleRequest}
use bpfd.GoMap.{lookup, insert, delete, keys}
use bpfd.Rules.{RuleTable, validate, validate_tracers_and_actions, add_rule}
use bpfd.Rules

-- The fields of `apiServer` that the calls read and write. `actions` holds the keys of the map of
-- actions.
pub record Server : Type 0 where
  pub rules : RuleTable
  pub actions : List Text
  pub tracer_list : List Text
  pub action_list : List Text
  pub is_streaming : Bool
  pub events : List Event

pub data Error : Type 0 where
  nil_rule empty_rule_name : Error
  invalid : Rules.Error → Error

-- `addEvent`
unfoldable pub add_event : Event → Server → Server
add_event event s = if s.is_streaming then record s { events = s.events ++ event ∷ [] } else s

-- `popEvent`
unfoldable pub pop_event : Server → Option Event × Server
pop_event s = elim (get_last? s.events) [
  | none ↦ (none, s)
  | some event ↦ (some event, record s { events = init s.events })
]

-- `CreateRule`
unfoldable pub create_rule : Option CreateRuleRequest → Server → Result Error (Unit {0}) × Server
unfolding add_rule
create_rule none s = (err nil_rule, s)
create_rule (some c) s = elim c.rule [
  | none ↦ (err nil_rule, s)
  | some rule ↦ elim (validate rule) [
    | err e ↦ (err (invalid e), s)
    | ok _ ↦ elim (validate_tracers_and_actions rule s.tracer_list s.action_list) [
      | err e ↦ (err (invalid e), s)
      | ok _ ↦ (ok tt, record s { rules = add_rule rule s.rules })
    ]
  ]
]

-- `for name := range prs { if name == r.Name { delete(s.rules[p], r.Name) } }`
unfoldable pub delete_named : Text → List Text → List (Text × Rule) → List (Text × Rule)
delete_named n [] prs = prs
delete_named n (k ∷ ks) prs = delete_named n ks (if k == n then delete n prs else prs)

-- the loop over the tracers of `RemoveRule`
unfoldable pub delete_everywhere : Text → RuleTable → RuleTable
unfolding delete_named keys
delete_everywhere n [] = []
delete_everywhere n ((p, prs) ∷ table) =
    (p, delete_named n (keys prs) prs) ∷ delete_everywhere n table

-- `delete(s.rules[r.Tracer], r.Name)`; a delete from a nil map does nothing
unfoldable pub delete_rule : Text → Text → RuleTable → RuleTable
delete_rule tracer n table = elim (lookup tracer table) [
  | none ↦ table
  | some prs ↦ insert tracer (delete n prs) table
]

-- `RemoveRule`
unfoldable pub remove_rule : Option RemoveRuleRequest → Server → Result Error (Unit {0}) × Server
unfolding delete_everywhere delete_rule
remove_rule none s = (err empty_rule_name, s)
remove_rule (some r) s =
    if is_empty r.name
    then (err empty_rule_name, s)
    else if not (is_empty r.tracer)
    then (ok tt, record s { rules = delete_rule r.tracer r.name s.rules })
    else (ok tt, record s { rules = delete_everywhere r.name s.rules })

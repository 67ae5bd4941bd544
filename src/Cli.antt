-- ===== src/Cli.antt =====
-- create.go and remove.go: the two commands that change the rules of a daemon. The client is
-- connected or not, a parameter, and a call of it is a call of the server in api/api.go. Each
-- command gives the names that it prints and how it ends.
pub mod Laws
pub mod Trace
pub mod Listing
pub mod Program
use bpfd.Prelude.{
  some, List, [], ◌∷◌, ◌++◌, if◌then◌else◌, nat_eq, is_empty, Result, ok, err, Text, text_eq,
}
use bpfd.Grpc.{Rule}
use bpfd.GoMap.{values}
use bpfd.Proc.{Host}
use bpfd.Rules.{RuleTable, parse_files}
use bpfd.Rules
use bpfd.Api.{Server, create_rule, remove_rule}
use bpfd.Api

pub data CliError : Type 0 where
  no_rule_file no_rule_name : CliError
  no_client : Text → CliError
  files_failed : Rules.Error → CliError
  create_failed remove_failed : Text → Api.Error → CliError

-- the names printed, how the command ends, and the server then
pub record Outcome : Type 0 where
  pub printed : List Text
  pub result : Result CliError (Unit {0})
  pub server : Server

-- the loop over the rules to create
unfoldable pub send_rules : List Rule → List Text → Server → Outcome
unfolding create_rule
send_rules [] printed s = record { printed = printed; result = ok tt; server = s }
send_rules (rule ∷ rules) printed s =
    let (answer, s') = create_rule (some (record { rule = some rule })) s in
    let rest = send_rules rules (printed ++ rule.name ∷ []) s' in
    elim answer [
      | err e ↦ record { printed = printed; result = err (create_failed rule.name e); server = s' }
      | ok _ ↦ rest
    ]

-- the rules of all tracers, in the order of the two loops
unfoldable pub rules_in : RuleTable → List Rule
unfolding values
rules_in [] = []
rules_in ((p, prs) ∷ table) = values prs ++ rules_in table

-- `Run` of the create command
unfoldable pub create_command :
    (Text → Result Text Rule) → Host → Result Text (Unit {0}) → List Text → Server → Outcome
unfolding parse_files send_rules rules_in
create_command decode h client args s =
    if is_empty args
    then record { printed = []; result = err no_rule_file; server = s }
    else elim client [
      | err e ↦ record { printed = []; result = err (no_client e); server = s }
      | ok _ ↦ elim (parse_files decode h args) [
        | err e ↦ record { printed = []; result = err (files_failed e); server = s }
        | ok (table, _) ↦ send_rules (rules_in table) [] s
      ]
    ]

-- the loop over the names to remove
unfoldable pub send_names : List Text → List Text → Server → Outcome
unfolding remove_rule
send_names [] printed s = record { printed = printed; result = ok tt; server = s }
send_names (n ∷ names) printed s =
    let (answer, s') = remove_rule (some (record { name = n; tracer = [] })) s in
    let rest = send_names names (printed ++ n ∷ []) s' in
    elim answer [
      | err e ↦ record { printed = printed; result = err (remove_failed n e); server = s' }
      | ok _ ↦ rest
    ]

-- `Run` of the remove command
unfoldable pub remove_command : Result Text (Unit {0}) → List Text → Server → Outcome
unfolding send_names
remove_command client args s =
    if is_empty args
    then record { printed = []; result = err no_rule_name; server = s }
    else elim client [
      | err e ↦ record { printed = []; result = err (no_client e); server = s }
      | ok _ ↦ send_names args [] s
    ]

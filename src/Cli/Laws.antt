-- ===== src/Cli/Laws.antt =====
-- What the commands create and remove leave in the table of the daemon, also where they stop midway.
pub mod Create
pub mod Remove
use bpfd.Prelude.{
  ◌≡◌, sym, ap, ◌∙◌, List, [], ◌∷◌, ◌++◌, append_assoc, append-nil, Eq, nat_eq, Result, Text,
  text_eq,
}
use bpfd.Grpc.{Rule, RemoveRuleRequest}
use bpfd.Rules.{RuleTable}
use bpfd.Rules.Table.{find_rule}
use bpfd.Api.{Server, create_rule, remove_rule, empty_rule_name}
use bpfd.Api
use bpfd.Api.Create.{create_rule_effect}
use bpfd.Api.Remove.{removes, remove_rule_effect}
use bpfd.Cli
use bpfd.Cli.{Outcome, create_failed, remove_failed, send_rules, send_names}

abbrev pub Answer : Type 0
Answer = Result Api.Error (Unit {0}) × Server

pub no_more :
    (printed : List Text) (o : Result Cli.CliError (Unit {0})) (u : Server) (x : Outcome)
    → x ≡ record { printed = printed; result = o; server = u }
    → x ≡ record { printed = printed ++ []; result = o; server = u }
no_more printed o u x h =
    h
    ∙ ap (λ (l : List Text). let q : Outcome = record { printed = l; result = o; server = u } in q)
        (sym (append-nil printed))

pub later :
    (n : Text) (printed names : List Text) (o : Result Cli.CliError (Unit {0})) (u : Server)
    (x : Outcome)
    → x ≡ record { printed = printed ++ n ∷ [] ++ names; result = o; server = u }
    → x ≡ record { printed = printed ++ (n ∷ names); result = o; server = u }
later n printed names o u x h =
    h
    ∙ ap (λ (l : List Text). let q : Outcome = record { printed = l; result = o; server = u } in q)
        (append_assoc printed (n ∷ []) names)

-- ===== src/Examples/Cli.antt =====
-- The theorems about the commands at concrete rules, names and streams.
use bpfd.Prelude.{
  ◌≡◌, ◌≢◌, ◌⊎◌, none, some, List, [], ◌∷◌, ◌++◌, map, nat_eq, All, ok, err, Text, codes, text_eq,
}
use bpfd.Grpc.{Rule}
use bpfd.Api.{Server, Error, create_rule, empty_rule_name}
use bpfd.Api
use bpfd.Rules.Table.{find_rule}
use bpfd.Cli.{create_failed, remove_failed, send_rules, send_names}
use bpfd.Cli.Trace.{received, trace_loop, Printed, stop, stopped, trace_loop-stop}
use bpfd.Cli.Laws.Create.{with_rules, names_of, send_rules_cases}
use bpfd.Cli.Laws.Remove.{without, send_names_cases}
use bpfd.Examples.Rules.{passwd}
use bpfd.Examples.Api.{empty_server, server, open_event, other_event}

abbrev nameless : Rule
nameless = record passwd { name = [] }

send_rules_cases_example :
    ((t : Server) × (send_rules (passwd ∷ nameless ∷ []) [] empty_server
        ≡ record { printed = [] ++ names_of (passwd ∷ nameless ∷ []); result = ok tt; server = t })
      × (find_rule t.rules ≡ with_rules (passwd ∷ nameless ∷ []) (find_rule [])))
    ⊎ ((before : List Rule) × (r : Rule) × (after : List Rule) × (e : Api.Error) × (t : Server)
        × ((passwd ∷ nameless ∷ []) ≡ before ++ r ∷ after)
        × (create_rule (some (record { rule = some r })) t ≡ (err e, t))
        × (send_rules (passwd ∷ nameless ∷ []) [] empty_server ≡ record {
          printed = [] ++ names_of before;
          result = err (create_failed r.name e);
          server = t;
        })
        × (find_rule t.rules ≡ with_rules before (find_rule [])))
send_rules_cases_example = send_rules_cases (passwd ∷ nameless ∷ []) [] empty_server

abbrev names : List Text
names = codes "passwd" ∷ [] ∷ []

send_names_cases_example :
    ((t : Server) × (send_names names [] server
        ≡ record { printed = [] ++ names; result = ok tt; server = t })
      × All (λ n. n ≢ []) names
      × (find_rule t.rules ≡ without names (find_rule server.rules)))
    ⊎ ((before : List Text) × (after : List Text) × (t : Server) × (names ≡ before ++ [] ∷ after)
        × All (λ n. n ≢ []) before
        × (send_names names [] server ≡ record {
          printed = [] ++ before;
          result = err (remove_failed [] empty_rule_name);
          server = t;
        })
        × (find_rule t.rules ≡ without before (find_rule server.rules)))
send_names_cases_example = send_names_cases names [] server

trace_loop-stop_example :
    let out = trace_loop (
      map received (some open_event ∷ none ∷ some other_event ∷ [])
      ++ stop none ∷ received (some open_event) ∷ []) in
    Printed (some open_event ∷ none ∷ some other_event ∷ []) out.0 × (out.1 ≡ stopped none)
trace_loop-stop_example =
    trace_loop-stop (some open_event ∷ none ∷ some other_event ∷ []) none
      (received (some open_event) ∷ [])

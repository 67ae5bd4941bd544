-- ===== src/Cli/Program/Sends.antt =====
-- The requests that a command asks for, and how far the daemon is brought by them.
use bpfd.Prelude.{
  sym, ap, map, ok, err, ◌≡◌, refl, ◌⊎◌, inl, inr, true, Option, none, some, List, [], ◌∷◌, ◌++◌,
  if◌then◌else◌, Bool-cases, nat_eq, is_empty, Result, Result-cases, Text, text_eq,
}
use bpfd.Grpc.{Rule, CreateRuleRequest, RemoveRuleRequest}
use bpfd.GoMap.{values}
use bpfd.Proc.{Host}
use bpfd.Rules.{RuleTable, parse_files}
use bpfd.Api.{Server, Error, create_rule, remove_rule}
use bpfd.Api.Trace.{open_stream}
use bpfd.Cli.{send_rules, send_names, rules_in, create_command, remove_command}
use bpfd.Cli.Program.{before, get_client, run_command}
use bpfd.Cli.Program
use bpfd.System.{Input, create, remove, connect, event, iterate, perform}
use bpfd.System.Requests.{execute}

-- The request that brings a rule, and the one that takes those with a name away.
abbrev to_create : Rule → Input
to_create r = create (some (record { rule = some r }))

abbrev to_remove : Text → Input
to_remove n = remove (some (record { name = n; tracer = [] }))

abbrev every_rule : RuleTable → List Rule
every_rule [] = []
every_rule ((p, prs) ∷ table) = map (λ z. z.1) prs ++ every_rule table

abbrev requests_of : {E : Type 0} → Result E (RuleTable × List Text) → List Input
requests_of (err e) = []
requests_of (ok (table, names)) = map to_create (every_rule table)

-- What a command asks of the daemon: every rule of the files, every name that is given, a stream.
abbrev pub asked : (Text → Result Text Rule) → Host → Program.Command → List Input
asked decode h (Program.create args) =
    if is_empty args then [] else requests_of (parse_files decode h args)
asked decode h (Program.remove args) = map to_remove args
asked decode h Program.list = []
asked decode h Program.trace = connect ∷ []

-- a request that the daemon answers with an error
abbrev pub IsRefused : Input → Server → Type 0
IsRefused (create c) s = (e : Error) × ((create_rule c s).0 ≡ err e)
IsRefused (remove r) s = (e : Error) × ((remove_rule r s).0 ≡ err e)
IsRefused connect s = ⊥
IsRefused (event p e) s = ⊥
IsRefused (iterate c f) s = ⊥

-- The last of the requests is refused.
abbrev EndsRefused : Host → List Input → Server → Type 0
EndsRefused k sent s =
    (front : List Input) × (i : Input) × (m : Server) × (sent ≡ front ++ i ∷ [])
    × (execute k front s ≡ some m)
    × IsRefused i m

-- From one server to another by the requests asked for, in their order: all of them, or those up to the first
-- that is refused.
pub record Sends (k : Host) (requests : List Input) (s t : Server) : Type 0 where
  pub sent : List Input
  pub rest : List Input
  pub split : requests ≡ sent ++ rest
  pub executed : execute k sent s ≡ some t
  pub ends : (rest ≡ []) ⊎ EndsRefused k sent s

none_sent : (k : Host) (s : Server) → Sends k [] s s
none_sent k s = record { sent = []; rest = []; split = refl; executed = refl; ends = inl refl }

accepted :
    (k : Host) (i : Input) (is : List Input) (s m t : Server)
    → perform k i s ≡ some (m, [])
    → Sends k is m t
    → Sends k (i ∷ is) s t
accepted k i is s m t q r = record {
  sent = i ∷ r.sent;
  rest = r.rest;
  split = ap (λ l. i ∷ l) r.split;
  executed = rw (q, execute) r.executed;
  ends = elim r.ends [
    | inl e ↦ inl e
    | inr (front, j, u, e, x, f) ↦ inr (i ∷ front, j, u, ap (λ l. i ∷ l) e, rw (q, execute) x, f)
  ];
}

refused :
    (k : Host) (i : Input) (is : List Input) (s m : Server)
    → perform k i s ≡ some (m, [])
    → IsRefused i s
    → Sends k (i ∷ is) s m
refused k i is s m q f = record {
  sent = i ∷ [];
  rest = is;
  split = refl;
  executed = rw (q, execute) refl;
  ends = inr ([], i, s, refl, refl, f);
}

send_rules-Sends :
    (k : Host) (rules : List Rule) (printed : List Text) (s : Server)
    → Sends k (map to_create rules) s (send_rules rules printed s).server
unfolding send_rules perform
send_rules-Sends k [] printed s = none_sent k s
send_rules-Sends k (r ∷ rules) printed s =
    let c : Option CreateRuleRequest = some (record { rule = some r }) in
    let m = (create_rule c s).1 in
    elim (Result-cases (create_rule c s).0) [
      | inl (u, e) ↦
          rw (e, send_rules)
            (accepted k (create c) (map to_create rules) s m _ refl
              (send_rules-Sends k rules (printed ++ r.name ∷ []) m))
      | inr (x, e) ↦ rw (e, send_rules) (refused k (create c) (map to_create rules) s m refl (x, e))
    ]

send_names-Sends :
    (k : Host) (names : List Text) (printed : List Text) (s : Server)
    → Sends k (map to_remove names) s (send_names names printed s).server
unfolding send_names perform
send_names-Sends k [] printed s = none_sent k s
send_names-Sends k (n ∷ names) printed s =
    let r : Option RemoveRuleRequest = some (record { name = n; tracer = [] }) in
    let m = (remove_rule r s).1 in
    elim (Result-cases (remove_rule r s).0) [
      | inl (u, e) ↦
          rw (e, send_names)
            (accepted k (remove r) (map to_remove names) s m _ refl
              (send_names-Sends k names (printed ++ n ∷ []) m))
      | inr (x, e) ↦ rw (e, send_names) (refused k (remove r) (map to_remove names) s m refl (x, e))
    ]

values-map : (prs : List (Text × Rule)) → values prs ≡ map (λ z. z.1) prs
unfolding values
values-map [] = refl
values-map ((n, r) ∷ prs) = ap (λ l. r ∷ l) (values-map prs)

rules_in-every_rule : (table : RuleTable) → rules_in table ≡ every_rule table
unfolding rules_in
rules_in-every_rule [] = refl
rules_in-every_rule ((p, prs) ∷ table) = rw (rules_in-every_rule table, values-map prs) refl

create_command-Sends :
    (decode : Text → Result Text Rule) (h k : Host) (args : List Text) (s : Server)
    → Sends k
        (asked decode h (Program.create args))
        s
        (create_command decode h (ok tt) args s).server
unfolding create_command
create_command-Sends decode h k args s = elim (Bool-cases (is_empty args)) [
  | inl e ↦ rw (e, create_command) (none_sent k s)
  | inr e ↦ elim (Result-cases (parse_files decode h args)) [
    | inr (x, p) ↦ rw (e, create_command, p) (none_sent k s)
    | inl ((table, names), p) ↦
        rw (e, create_command, p, sym (rules_in-every_rule table))
          (send_rules-Sends k (rules_in table) [] s)
  ]
]

remove_command-Sends :
    (decode : Text → Result Text Rule) (h k : Host) (args : List Text) (s : Server)
    → Sends k (asked decode h (Program.remove args)) s (remove_command (ok tt) args s).server
unfolding remove_command
remove_command-Sends decode h k [] s = none_sent k s
remove_command-Sends decode h k (n ∷ names) s = send_names-Sends k (n ∷ names) [] s

get_client-ok :
    (dial : Text → Option Text) (address : Text)
    → dial address ≡ none
    → get_client dial address ≡ ok tt
unfolding get_client
get_client-ok dial address n = rw (n, get_client) refl

connected : (k : Host) (s : Server) → perform k connect s ≡ some (open_stream s, [])
unfolding perform
connected k s = refl

pub run_command-Sends :
    (decode : Text → Result Text Rule) (h k : Host) (dial : Text → Option Text) (address : Text)
    (cmd : Program.Command) (s : Server)
    → before address ≡ true
    → dial address ≡ none
    → Sends k (asked decode h cmd) s (run_command decode h dial address cmd s)
unfolding run_command
run_command-Sends decode h k dial address (Program.create args) s b n =
    rw (b, run_command, get_client-ok dial address n) (create_command-Sends decode h k args s)
run_command-Sends decode h k dial address (Program.remove args) s b n =
    rw (b, run_command, get_client-ok dial address n) (remove_command-Sends decode h k args s)
run_command-Sends decode h k dial address Program.list s b n = none_sent k s
run_command-Sends decode h k dial address Program.trace s b n =
    rw (b, run_command, get_client-ok dial address n)
      (accepted k connect [] s (open_stream s) _ (connected k s) (none_sent k (open_stream s)))

-- ===== src/Examples/Api.antt =====
-- The theorems about api/api.go at concrete servers, requests and events.
use bpfd.Prelude.{
  ◌+◌, ◌≡◌, refl, ◌≢◌, ◌⊎◌, true, false, ◌&&◌, Option, none, some, List, [], ◌∷◌, ◌++◌, map,
  nat_beq, if◌then◌else◌, nat_eq, replicate, count_if, ok, err, pos, Text, codes, text_beq, text_eq,
}
use bpfd.Grpc.{Rule, Event, CreateRuleRequest, RemoveRuleRequest}
use bpfd.Rules.{RuleTable}
use bpfd.Rules.Table.{find_rule, IsSound-nil}
use bpfd.Wire.Laws.{le_bytes}
use bpfd.Tracer.{returned}
use bpfd.Tracer.BashReadline.{watch_event}
use bpfd.Api.{Server, Error, empty_rule_name, create_rule, remove_rule}
use bpfd.Api.Create.{Accepts, IsConsistent, create_rule_effect}
use bpfd.Api.Remove.{removes, remove_rule_effect}
use bpfd.Api.Trace.Hangup.{broken_off, unsent, hangup_ends_others}
use bpfd.Api.Trace.Delivery.{
  History, Step, emit, connect, iterate, poll, run, start, delivery_conserves, stale_event,
}
use bpfd.Examples.Rules.{passwd, opened, tracers, actions, table}

abbrev pub empty_server : Server
empty_server = record {
  rules = [];
  actions = codes "stdout" ∷ codes "kill" ∷ [];
  tracer_list = tracers;
  action_list = actions;
  is_streaming = true;
  events = [];
}

abbrev pub server : Server
server = record empty_server { rules = table }

abbrev pub open_event : Event
open_event = record {
  pid = 7;
  tgid = 6;
  uid = 1000;
  gid = 1000;
  command = codes "cat";
  return_value = pos 3;
  event_data = some opened;
  container_id = codes "c0ffee";
  container_runtime = codes "docker";
  tracer = codes "open";
}

abbrev pub other_event : Event
other_event = record open_event { pid = 8 }

abbrev pub create_passwd : Option CreateRuleRequest
create_passwd = some (record { rule = some passwd })

abbrev pub remove_passwd : RemoveRuleRequest
remove_passwd = record { name = codes "passwd"; tracer = [] }

created : create_rule create_passwd empty_server ≡ (ok tt, server)
unfolding create_rule bpfd.Rules.validate bpfd.Proc.Runtime.is_valid_container_runtime text_beq
    bpfd.Rules.validate_tracers_and_actions bpfd.Rules.is_in bpfd.GoMap.lookup bpfd.GoMap.insert
created = refl

removed : (remove_rule (some remove_passwd) server).0 ≡ ok tt
unfolding remove_rule
removed = refl

create_rule_effect_example :
    ((e : Error) × (create_rule create_passwd empty_server ≡ (err e, empty_server)))
    ⊎ ((rule : Rule) × (t : RuleTable) × (create_passwd ≡ some (record { rule = some rule }))
        × Accepts empty_server rule
        × (create_rule create_passwd empty_server ≡ (ok tt, record empty_server { rules = t }))
        × ((tracer name : Text)
            → find_rule t tracer name ≡ (
                if text_beq rule.tracer tracer && text_beq rule.name name
                then some rule
                else find_rule [] tracer name)))
create_rule_effect_example = create_rule_effect create_passwd empty_server

empty-IsConsistent : IsConsistent empty_server
unfolding find_rule bpfd.GoMap.lookup
empty-IsConsistent = record {
  sound = IsSound-nil;
  supported = λ tracer name r q. absurd (let z : none ≡ some r = q in cc);
}

remove_rule_effect_example :
    (((some remove_passwd ≡ none)
        ⊎ ((r : RemoveRuleRequest) × (some remove_passwd ≡ some r) × (r.name ≡ [])))
      × (remove_rule (some remove_passwd) server ≡ (err empty_rule_name, server)))
    ⊎ ((r : RemoveRuleRequest) × (t : RuleTable) × (some remove_passwd ≡ some r)
        × (r.name ≢ [])
        × (remove_rule (some remove_passwd) server ≡ (ok tt, record server { rules = t }))
        × ((tracer name : Text)
            → find_rule t tracer name
              ≡ (if removes r tracer name then none else find_rule table tracer name)))
remove_rule_effect_example = remove_rule_effect (some remove_passwd) server

abbrev steps : List Step
steps = emit open_event ∷ poll ∷ iterate true false ∷ emit other_event ∷ connect ∷ poll ∷ []

delivery_conserves_example :
    count_if (λ e. nat_beq e.pid 7) (run steps (start server)).delivered
      + count_if (λ e. nat_beq e.pid 7) (run steps (start server)).lost
      + count_if (λ e. nat_beq e.pid 7) (run steps (start server)).server.events
    ≡ count_if (λ e. nat_beq e.pid 7) server.events
      + count_if (λ e. nat_beq e.pid 7) (run steps (start server)).accepted
delivery_conserves_example = delivery_conserves server steps (λ e. nat_beq e.pid 7)

stale_event_example :
    (run
      (emit open_event ∷ iterate true false ∷ map emit (other_event ∷ []) ++ connect ∷ poll ∷ [])
      (start server)).delivered
    ≡ open_event ∷ []
stale_event_example = stale_event open_event (other_event ∷ []) false (start server) refl

-- a history with one event in the buffer and a stream
abbrev buffered : History
buffered = start (record server { is_streaming = true; events = open_event ∷ [] })

hangup_ends_others_example :
    run (iterate false true ∷ emit other_event ∷ poll ∷ []) buffered
    ≡ broken_off open_event [] buffered
hangup_ends_others_example =
    hangup_ends_others (iterate false true) (emit other_event ∷ poll ∷ []) buffered
      (broken_off open_event [] buffered) (tt, (tt, tt)) refl (unsent open_event [] refl)

abbrev shadow : Rule
shadow = record passwd { name = codes "shadow"; actions = [] }

abbrev pub two_rules : Server
two_rules = record server {
  rules = (codes "open", (codes "passwd", passwd) ∷ (codes "shadow", shadow) ∷ []) ∷ [];
}

abbrev line : Event
line = record open_event {
  command = codes "bash";
  event_data = none;
  container_id = [];
  container_runtime = [];
  tracer = [];
  return_value = pos 0;
}

abbrev line_buffer : Text
line_buffer =
    le_bytes 4 7
    ++ le_bytes 4 6
    ++ le_bytes 4 1000
    ++ le_bytes 4 1000
    ++ codes "bash"
    ++ replicate 76 0
    ++ le_bytes 4 0

line_read : watch_event line_buffer ≡ returned (some line)
unfolding watch_event
line_read = refl

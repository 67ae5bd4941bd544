-- ===== src/System/Invariant.antt =====
-- What holds of every server that a daemon reaches.
use bpfd.Prelude.{
  ℕ, ◌≡◌, refl, sym, ◌∙◌, inl, inr, Bool, true, false, Option, none, some, List, [], ◌∷◌, arith,
  subst, if◌then◌else◌, Option-cases, nat_eq, get_last?, In, Result, ok, Text, codes, text_eq,
}
use bpfd.Grpc.{Rule, Event, CreateRuleRequest, RemoveRuleRequest}
use bpfd.Proc.{Host}
use bpfd.Rules.{RuleTable}
use bpfd.Action
use bpfd.Action.{list_actions}
use bpfd.Tracer
use bpfd.Tracer.{
  WatchResult, returned, decode_failed, ids_failed, invalid_state, inspect_failed, panicked,
}
use bpfd.Api.{Server, create_rule, remove_rule}
use bpfd.Api.Create.{IsConsistent, create_rule_effect, create_rule-IsConsistent}
use bpfd.Api.Remove.{remove_rule_effect, remove_rule-IsConsistent}
use bpfd.Api.Trace.{open_stream, trace_step}
use bpfd.Api.Loop.{Performed, handle_event, complete}
use bpfd.Api.Loop.Laws.{respond, rules_of, queued, handle_event_lem, handle_event_no_data}
use bpfd.Api.Loop.Watch.{watch_round}
use bpfd.Daemon.{System, start}
use bpfd.Daemon.Laws.{start-IsConsistent, start-actions}
use bpfd.System.{Input, event, create, remove, connect, iterate, perform, Reach, initially, step}

-- Two servers with the same table, actions and names.
pub record IsSameTable (s t : Server) : Type 0 where
  pub rules : t.rules ≡ s.rules
  pub actions : t.actions ≡ s.actions
  pub tracer_list : t.tracer_list ≡ s.tracer_list
  pub action_list : t.action_list ≡ s.action_list

-- A server that serves: the table is consistent, every action that it knows by name has been made, and
-- the action that it falls back to is among them.
pub record IsServing (s : Server) : Type 0 where
  pub consistent : IsConsistent s
  pub made : s.actions ≡ s.action_list
  pub prints : In (codes "stdout") s.actions

kept :
    (s : Server) (b : Bool) (es : List Event)
    → IsSameTable s (record s { is_streaming = b; events = es })
kept s b es = record { rules = refl; actions = refl; tracer_list = refl; action_list = refl }

same : {s : Server} → IsSameTable s s
same = record { rules = refl; actions = refl; tracer_list = refl; action_list = refl }

if_both {ℓ} :
    {A : Type ℓ} (P : A → Type 0) (b : Bool) {x y : A} → P x → P y → P (if b then x else y)
if_both P true px py = px
if_both P false px py = py

IsSameTable-IsServing : {s t : Server} → IsSameTable s t → IsServing s → IsServing t
IsSameTable-IsServing k v = record {
  consistent = record {
    sound = rw k.rules v.consistent.sound;
    supported = λ tracer name r q.
        rw (k.tracer_list, k.action_list) (v.consistent.supported tracer name r (rw k.rules at q));
  };
  made = k.actions ∙ v.made ∙ sym k.action_list;
  prints = rw k.actions v.prints;
}

queued-IsSameTable : (n : ℕ) (e : Event) (s : Server) → IsSameTable s (queued n e s)
queued-IsSameTable n e s = if_both (IsSameTable s) s.is_streaming (kept s _ _) same

respond-IsSameTable :
    (e : Event) (d : List (Text × Text)) (rules : List (Text × Rule)) (s : Server)
    → IsSameTable s (respond e d rules s).0
respond-IsSameTable e d [] s = queued-IsSameTable 1 e s
respond-IsSameTable e d (r ∷ rules) s = queued-IsSameTable _ e s

pub trace_step-IsSameTable :
    (context_done send_fails : Bool) (s : Server)
    → IsSameTable s (trace_step context_done send_fails s).1
unfolding trace_step
trace_step-IsSameTable c f s = elim (Option-cases (get_last? s.events)) [
  | inl n ↦ record {
    rules = ground arith;
    actions = ground arith;
    tracer_list = ground arith;
    action_list = ground arith;
  }
  | inr (e, j) ↦ record {
    rules = ground arith;
    actions = ground arith;
    tracer_list = ground arith;
    action_list = ground arith;
  }
]

pub open_stream-IsSameTable : (s : Server) → IsSameTable s (open_stream s)
unfolding open_stream
open_stream-IsSameTable s = kept s true s.events

with_table :
    (s : Server) (t : RuleTable)
    → IsServing s
    → IsConsistent (record s { rules = t })
    → IsServing (record s { rules = t })
with_table s t v k = record { consistent = k; made = v.made; prints = v.prints }

create_rule-IsServing :
    (c : Option CreateRuleRequest) (s : Server) → IsServing s → IsServing (create_rule c s).1
create_rule-IsServing c s v =
    let k = create_rule-IsConsistent c s v.consistent in
    elim (create_rule_effect c s) [
      | inl (x, e) ↦ rw e v
      | inr (rule, t, x, acc, e, find) ↦ rw e (with_table s t v (rw e at k))
    ]

remove_rule-IsServing :
    (r : Option RemoveRuleRequest) (s : Server) → IsServing s → IsServing (remove_rule r s).1
remove_rule-IsServing r s v =
    let k = remove_rule-IsConsistent r s v.consistent in
    elim (remove_rule_effect r s) [
      | inl (x, e) ↦ rw e v
      | inr (q, t, x, y, e, find) ↦ rw e (with_table s t v (rw e at k))
    ]

pub handle_event-IsSameTable :
    (h : Host) (p : Text) (o : Option Event) (s t : Server) (done : Performed)
    → In (codes "stdout") s.actions
    → handle_event h p o s ≡ some (t, done)
    → IsSameTable s t
unfolding handle_event
handle_event-IsSameTable h p none s t done k q = let e : s ≡ t = cc in rw⁻¹ e same
handle_event-IsSameTable h p (some x) s t done k q = elim (Option-cases x.event_data) [
  | inl n ↦ let r = handle_event_no_data h p x s n in let e : s ≡ t = cc in rw⁻¹ e same
  | inr (d, j) ↦
      let r = handle_event_lem h p x d s k j in
      let e : (respond (complete h p x) d (rules_of p s) s).0 ≡ t = cc in
      subst (IsSameTable s) e (respond-IsSameTable (complete h p x) d (rules_of p s) s)
]

pub watch_round-IsSameTable :
    (h : Host) (p : Text) (w : WatchResult) (s t : Server) (done : Performed)
    → In (codes "stdout") s.actions
    → watch_round h p w s ≡ some (t, done)
    → IsSameTable s t
unfolding watch_round
watch_round-IsSameTable h p (returned e) s t done k q = handle_event-IsSameTable h p e s t done k q
watch_round-IsSameTable h p decode_failed s t done k q =
    handle_event-IsSameTable h p none s t done k q
watch_round-IsSameTable h p (ids_failed n) s t done k q =
    handle_event-IsSameTable h p none s t done k q
watch_round-IsSameTable h p (invalid_state n) s t done k q =
    handle_event-IsSameTable h p none s t done k q
watch_round-IsSameTable h p (inspect_failed x) s t done k q =
    handle_event-IsSameTable h p none s t done k q
watch_round-IsSameTable h p panicked s t done k q = absurd (cc q)

pub perform-IsServing :
    (h : Host) (i : Input) (s t : Server) (done : Performed)
    → IsServing s
    → perform h i s ≡ some (t, done)
    → IsServing t
unfolding perform
perform-IsServing h (event p w) s t done v q =
    IsSameTable-IsServing (watch_round-IsSameTable h p w s t done v.prints q) v
perform-IsServing h (create c) s t done v q =
    let e : (create_rule c s).1 ≡ t = cc in subst IsServing e (create_rule-IsServing c s v)
perform-IsServing h (remove r) s t done v q =
    let e : (remove_rule r s).1 ≡ t = cc in subst IsServing e (remove_rule-IsServing r s v)
perform-IsServing h connect s t done v q =
    let e : open_stream s ≡ t = cc in
    subst IsServing e (IsSameTable-IsServing (open_stream-IsSameTable s) v)
perform-IsServing h (iterate c f) s t done v q =
    let e : (trace_step c f s).1 ≡ t = cc in
    subst IsServing e (IsSameTable-IsServing (trace_step-IsSameTable c f s) v)

pub Reach-IsServing :
    {h : Host} {s t : Server} {done : Performed} → IsServing s → Reach h s done t → IsServing t
Reach-IsServing v initially = v
Reach-IsServing {h} v (step {before} {t} r i u now q) =
    perform-IsServing h i t u now (Reach-IsServing v r) q

-- A daemon that gets as far as serving, with the action "stdout" compiled in, serves for as long as it
-- does not panic: whatever its tracers, its clients and their streams do, in any order, every server
-- it reaches has a table of valid rules with tracers and actions that the daemon has, each under its
-- own tracer and name, and has made every action that it knows by name, "stdout" among them.
pub start-Reach-IsServing :
    (decode : Text → Result Text Rule) (h : Host) (system : System) (ts : Tracer.Registered)
    (acts : Action.Registered) (s t : Server) (done : Performed)
    → start decode h system ts acts ≡ ok s
    → In (codes "stdout") (list_actions acts)
    → Reach h s done t
    → IsServing t
start-Reach-IsServing decode h system ts acts s t done q known r =
    let (made, listed) = start-actions decode h system ts acts s q in
    let c = start-IsConsistent decode h system ts acts s q in
    Reach-IsServing (record { consistent = c.0; made = made ∙ sym listed; prints = rw made known })
      r

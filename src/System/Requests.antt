-- ===== src/System/Requests.antt =====
-- The table of rules as its clients see it: a function from a tracer and a name to a rule, which the calls
-- of the service update and nothing else does.
pub mod Refinement
use bpfd.Prelude.{
  ◌≡◌, refl, sym, ◌≢◌, ◌↔◌, inl, inr, Bool, true, false, not, ◌&&◌, Option, none, some, List, [],
  ◌∷◌, arith, if◌then◌else◌, Bool-cases, Option-cases, Eq, ◌==◌, nat_eq, is_empty, All, In, any,
  any_sound, any_complete, Text, text_beq, text_beq_refl, text_beq_iff, text_eq,
}
use bpfd.Grpc.{Rule, Event, CreateRuleRequest, RemoveRuleRequest}
use bpfd.Proc.{Host}
use bpfd.Proc.Runtime.{is_valid_container_runtime}
use bpfd.Rules.{RuleTable}
use bpfd.Rules.Table.{find_rule, Table, same_table}
use bpfd.Rules.Validate.{IsValid, IsSupported}
use bpfd.Api.{Server, Error, create_rule, remove_rule}
use bpfd.Api.Create.{Accepts, create_rule_iff, create_rule_effect}
use bpfd.Api.Remove.{removes, remove_rule_effect}
use bpfd.Api.Trace.{open_stream, trace_step}
use bpfd.Api.Loop.{Performed, handle_event}
use bpfd.System.{Input, event, create, remove, connect, iterate, perform}
use bpfd.System.Invariant.{
  IsServing, IsSameTable, perform-IsServing, handle_event-IsSameTable, open_stream-IsSameTable,
  trace_step-IsSameTable,
}
use bpfd.System.Panics.{perform_total}

abbrev pub all_of : (Text → Bool) → List Text → Bool
all_of test [] = true
all_of test (x ∷ xs) = test x && all_of test xs

-- A rule is accepted if it has a name and a tracer, if its container runtimes are valid, and if the daemon
-- has its tracer and its actions.
abbrev pub accepted : List Text → List Text → Rule → Bool
accepted tracers actions r =
    not (is_empty r.name)
    && not (is_empty r.tracer)
    && all_of is_valid_container_runtime r.container_runtimes
    && any (λ k. k == r.tracer) tracers
    && all_of (λ a. any (λ k. k == a) actions) r.actions

-- An accepted rule is put in its place, whatever was there.
abbrev pub put : List Text → List Text → Rule → Table → Table
put tracers actions r table tracer name =
    if accepted tracers actions r && (text_beq r.tracer tracer && text_beq r.name name)
    then some r
    else table tracer name

-- A request without a name takes nothing away.
abbrev pub clear : RemoveRuleRequest → Table → Table
clear r table tracer name =
    if not (is_empty r.name) && removes r tracer name then none else table tracer name

abbrev pub put_requested : List Text → List Text → Option Rule → Table → Table
put_requested tracers actions none table = table
put_requested tracers actions (some r) table = put tracers actions r table

-- What an input does to the table, for a daemon with these tracers and actions.
abbrev pub update : List Text → List Text → Input → Table → Table
update tracers actions (create (some c)) table = put_requested tracers actions c.rule table
update tracers actions (remove (some r)) table = clear r table
update tracers actions (create none) table = table
update tracers actions (remove none) table = table
update tracers actions (event p e) table = table
update tracers actions connect table = table
update tracers actions (iterate c f) table = table

abbrev pub updates : List Text → List Text → List Input → Table → Table
updates tracers actions [] table = table
updates tracers actions (i ∷ is) table = updates tracers actions is (update tracers actions i table)

-- The server behind a sequence of inputs, `none` if one of them panics.
abbrev pub execute : Host → List Input → Server → Option Server
execute h [] s = some s
execute h (i ∷ is) s = elim (perform h i s) [ none ↦ none | some (t, done) ↦ execute h is t ]

and_true : (a b : Bool) → (a && b) ≡ true → (a ≡ true) × (b ≡ true)
and_true true b h = (refl, h)
and_true false b h = cc

all_of_sound :
    (test : Text → Bool) (P : Text → Type 0) (xs : List Text)
    → ((x : Text) → test x ≡ true → P x)
    → all_of test xs ≡ true
    → All P xs
all_of_sound test P [] f h = tt
all_of_sound test P (x ∷ xs) f h =
    let (a, b) = and_true _ _ h in (f x a, all_of_sound test P xs f b)

all_of_complete :
    (test : Text → Bool) (P : Text → Type 0) (xs : List Text)
    → ((x : Text) → P x → test x ≡ true)
    → All P xs
    → all_of test xs ≡ true
all_of_complete test P [] f h = refl
all_of_complete test P (x ∷ xs) f (p, ps) = rw (f x p, all_of_complete test P xs f ps) refl

is_among_sound : (xs : List Text) (x : Text) → any (λ k. k == x) xs ≡ true → In x xs
is_among_sound xs x h =
    let (k, i, e) = any_sound (λ k. k == x) xs h in rw ((text_beq_iff k x).0 e) at i

is_among_complete : (xs : List Text) (x : Text) → In x xs → any (λ k. k == x) xs ≡ true
is_among_complete xs x i = any_complete (λ k. k == x) x xs i (text_beq_refl x)

accepted_iff :
    (s : Server) (r : Rule) → (accepted s.tracer_list s.action_list r ≡ true) ↔ Accepts s r
accepted_iff s r = (
  λ h.
      let (h1, acts) = and_true _ _ h in
      let (h2, traced) = and_true _ _ h1 in
      let (h3, valid) = and_true _ _ h2 in
      let (n, t) = and_true (not (is_empty r.name)) (not (is_empty r.tracer)) h3 in
      (
        record {
          named = ground arith;
          traced = ground arith;
          runtimes =
              all_of_sound is_valid_container_runtime (λ c. is_valid_container_runtime c ≡ true)
                r.container_runtimes (λ x y. y) valid;
        },
        record {
          known_tracer = is_among_sound s.tracer_list r.tracer traced;
          known_actions =
              all_of_sound (λ a. any (λ k. k == a) s.action_list) (λ a. In a s.action_list)
                r.actions (is_among_sound s.action_list) acts;
        },
      ),
  λ (v, w).
      rw
        (
          v.named,
          v.traced,
          all_of_complete is_valid_container_runtime (λ c. is_valid_container_runtime c ≡ true)
              r.container_runtimes (λ x y. y) v.runtimes,
          is_among_complete s.tracer_list r.tracer w.known_tracer,
          all_of_complete (λ a. any (λ k. k == a) s.action_list) (λ a. In a s.action_list) r.actions
              (is_among_complete s.action_list) w.known_actions,
        )
        refl,
)

accepted_put :
    (s : Server) (r : Rule) (t : RuleTable)
    → accepted s.tracer_list s.action_list r ≡ true
    → ((tracer name : Text)
        → find_rule t tracer name ≡ (
            if text_beq r.tracer tracer && text_beq r.name name
            then some r
            else find_rule s.rules tracer name))
    → find_rule t ≡ put s.tracer_list s.action_list r (find_rule s.rules)
accepted_put s r t a f = same_table (λ tracer name. rw a (f tracer name))

refused_put :
    (s : Server) (r : Rule)
    → accepted s.tracer_list s.action_list r ≡ false
    → find_rule s.rules ≡ put s.tracer_list s.action_list r (find_rule s.rules)
refused_put s r a = same_table (λ tracer name. rw a refl)

create_rule-put :
    (s : Server) (r : Rule)
    → find_rule (create_rule (some (record { rule = some r })) s).1.rules
      ≡ put s.tracer_list s.action_list r (find_rule s.rules)
create_rule-put s r = elim (create_rule_effect (some (record { rule = some r })) s) [
  | inl (x, e) ↦ elim (Bool-cases (accepted s.tracer_list s.action_list r)) [
    | inl a ↦ absurd (let z = (create_rule_iff s r).1 ((accepted_iff s r).0 a) in cc (e, z))
    | inr a ↦ rw e (refused_put s r a)
  ]
  | inr (q, t, c, acc, e, find) ↦
      let p : q ≡ r = cc in
      let a : accepted s.tracer_list s.action_list q ≡ true = (accepted_iff s q).1 acc in
      rw (e, sym p) (accepted_put s q t a find)
]

pub create_rule-update :
    (c : Option CreateRuleRequest) (s : Server)
    → find_rule (create_rule c s).1.rules
      ≡ update s.tracer_list s.action_list (create c) (find_rule s.rules)
unfolding create_rule
create_rule-update none s = refl
create_rule-update (some c) s = elim (Option-cases c.rule) [
  | inl n ↦
      let e : c ≡ record { rule = none } = λ i. record { rule = n i } in rw (e, create_rule) refl
  | inr (r, n) ↦
      let e : c ≡ record { rule = some r } = λ i. record { rule = n i } in
      rw e (create_rule-put s r)
]

named : (n : Text) → n ≢ [] → is_empty n ≡ false
named [] h = absurd (h refl)
named (c ∷ n) h = refl

pub remove_rule-update :
    (o : Option RemoveRuleRequest) (s : Server)
    → find_rule (remove_rule o s).1.rules
      ≡ update s.tracer_list s.action_list (remove o) (find_rule s.rules)
remove_rule-update o s = elim (remove_rule_effect o s) [
  | inl (inl e, q) ↦ rw (q, e) refl
  | inl (inr (r, e, n), q) ↦ rw (q, e) (same_table (λ tracer name. rw n refl))
  | inr (r, t, e, n, q, find) ↦
      rw (q, e) (same_table (λ tracer name. rw (named r.name n) (find tracer name)))
]

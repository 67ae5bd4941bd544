-- ===== src/System/Actions.antt =====
-- Which actions an execution runs: each has a reason, and none that a rule asks for is left out.
use bpfd.Prelude.{
  ◌≡◌, refl, sym, ap, ◌∙◌, ◌⊎◌, inl, inr, true, Option, none, some, List, [], ◌∷◌, subst,
  Option-cases, nat_eq, All, In, In-cons, here, there, Result, ok, Text, codes, text_eq,
}
use bpfd.Grpc.{Rule, Event}
use bpfd.GoMap.{lookup}
use bpfd.GoMap.Laws.{lookup-In}
use bpfd.Proc.{Host}
use bpfd.Rules.{matches}
use bpfd.Rules.Table.{find_rule}
use bpfd.Action
use bpfd.Action.{list_actions}
use bpfd.Tracer
use bpfd.Tracer.{
  WatchResult, returned, decode_failed, ids_failed, invalid_state, inspect_failed, panicked,
}
use bpfd.Api.{Server}
use bpfd.Api.Loop.{Performed, handle_event, complete}
use bpfd.Api.Loop.Matching.{In-matching, In-actions_of, respond-In}
use bpfd.Api.Loop.Laws.{matching, respond, rules_of, handle_event_lem, handle_event_no_data}
use bpfd.Api.Loop.Watch.{watch_round, respond-Wants}
use bpfd.Daemon.{System, start}
use bpfd.System.{Input, event, create, remove, connect, iterate, perform, Reach}
use bpfd.System.Invariant.{IsServing, start-Reach-IsServing}

-- Why an action was run with an event: a tracer reported the event with data when the server was `t`, and
-- either the tracer had no rule and the action is the default, or one of its rules matched and lists the
-- action, which the daemon has.
pub record IsJustified (t : Server) (a : Text) (x : Event) : Type 0 where
  pub fields : List (Text × Text)
  pub has_data : x.event_data ≡ some fields
  pub reason :
      ((a ≡ codes "stdout") × (rules_of x.tracer t ≡ []))
      ⊎ ((n : Text) × (r : Rule) × In (n, r) (rules_of x.tracer t)
          × (matches r fields x.container_runtime ≡ true)
          × In a r.actions
          × In a t.actions)

respond-IsJustified :
    (t : Server) (e : Event) (d : List (Text × Text)) (rules : List (Text × Rule)) (a : Text)
    (x : Event)
    → e.event_data ≡ some d
    → rules_of e.tracer t ≡ rules
    → In (a, x) (respond e d rules t).1
    → IsJustified t a x
respond-IsJustified t e d [] a x j rs i = elim (In-cons i) [
  | inl p ↦
      let q : x ≡ e = ap (λ z. z.1) p in
      rw q (record { fields = d; has_data = j; reason = inl (ap (λ z. z.0) p, rs) })
  | inr k ↦ elim k [ ]
]
respond-IsJustified t e d (r ∷ rules) a x j rs i =
    let (q, known, (r', m, w)) = In-actions_of t.actions e x (matching e d (r ∷ rules)) a i in
    let (n, k, y) = In-matching e d (r ∷ rules) r' m in
    rw q (record { fields = d; has_data = j; reason = inr (n, r', rw rs k, y, w, known) })

handle_event-IsJustified :
    (h : Host) (p : Text) (o : Option Event) (s t : Server) (done : Performed) (a : Text)
    (x : Event)
    → IsServing s
    → handle_event h p o s ≡ some (t, done)
    → In (a, x) done
    → IsJustified s a x
unfolding handle_event complete
handle_event-IsJustified h p none s t done a x v q i =
    let e : done ≡ [] = cc in elim (let k : In (a, x) [] = rw e at i in k) [ ]
handle_event-IsJustified h p (some y) s t done a x v q i = elim (Option-cases y.event_data) [
  | inl n ↦
      let r = handle_event_no_data h p y s n in
      let e : done ≡ [] = cc in elim (let k : In (a, x) [] = rw e at i in k) [ ]
  | inr (d, j) ↦
      let r = handle_event_lem h p y d s v.prints j in
      let e : done ≡ (respond (complete h p y) d (rules_of p s) s).1 = cc in
      respond-IsJustified s (complete h p y) d (rules_of p s) a x j refl (rw e at i)
]

silent : (done : Performed) (a : Text) (x : Event) → done ≡ [] → In (a, x) done → ⊥
silent done a x e i = elim (let k : In (a, x) [] = rw e at i in k) [ ]

-- An input from which an action comes: a tracer's `WatchEvent` returned an event, and the action gets it
-- completed.
abbrev pub Reports : Host → Event → Input → Type 0
Reports h x i = (p : Text) × (e : Event) × (i ≡ event p (returned (some e))) × (x ≡ complete h p e)

-- what runs in a round without an event
no_event :
    (h : Host) (p : Text) (s t : Server) (done : Performed) (a : Text) (x : Event)
    → handle_event h p none s ≡ some (t, done)
    → In (a, x) done
    → ⊥
unfolding handle_event
no_event h p s t done a x q i = silent done a x (cc) i

handle_event-completed :
    (h : Host) (p : Text) (e : Event) (s t : Server) (done : Performed) (a : Text) (x : Event)
    → IsServing s
    → handle_event h p (some e) s ≡ some (t, done)
    → In (a, x) done
    → x ≡ complete h p e
handle_event-completed h p e s t done a x v q i = elim (Option-cases e.event_data) [
  | inl n ↦ let r = handle_event_no_data h p e s n in absurd (silent done a x (cc) i)
  | inr (d, j) ↦
      let r = handle_event_lem h p e d s v.prints j in
      let k : done ≡ (respond (complete h p e) d (rules_of p s) s).1 = cc in
      ((respond-Wants (complete h p e) x d (rules_of p s) s a).0 (rw k at i)).0
]

perform-IsJustified :
    (h : Host) (i : Input) (s t : Server) (done : Performed) (a : Text) (x : Event)
    → IsServing s
    → perform h i s ≡ some (t, done)
    → In (a, x) done
    → Reports h x i × IsJustified s a x
unfolding perform watch_round
perform-IsJustified h (event p (returned none)) s t done a x v q m =
    absurd (no_event h p s t done a x q m)
perform-IsJustified h (event p (returned (some e))) s t done a x v q m = (
  (p, e, refl, handle_event-completed h p e s t done a x v q m),
  handle_event-IsJustified h p (some e) s t done a x v q m,
)
perform-IsJustified h (event p decode_failed) s t done a x v q m =
    absurd (no_event h p s t done a x q m)
perform-IsJustified h (event p (ids_failed n)) s t done a x v q m =
    absurd (no_event h p s t done a x q m)
perform-IsJustified h (event p (invalid_state n)) s t done a x v q m =
    absurd (no_event h p s t done a x q m)
perform-IsJustified h (event p (inspect_failed y)) s t done a x v q m =
    absurd (no_event h p s t done a x q m)
perform-IsJustified h (event p panicked) s t done a x v q m = absurd (cc q)
perform-IsJustified h (create c) s t done a x v q m = absurd (silent done a x (cc) m)
perform-IsJustified h (remove r) s t done a x v q m = absurd (silent done a x (cc) m)
perform-IsJustified h connect s t done a x v q m = absurd (silent done a x (cc) m)
perform-IsJustified h (iterate c f) s t done a x v q m = absurd (silent done a x (cc) m)

rules_of-find_rule :
    (s : Server) (p n : Text) (r : Rule) → find_rule s.rules p n ≡ some r → In (n, r) (rules_of p s)
unfolding find_rule
rules_of-find_rule s p n r q = elim (Option-cases (lookup p s.rules)) [
  | inl k ↦ absurd (let z : find_rule s.rules p n ≡ none = rw (k, find_rule) refl in cc)
  | inr (prs, k) ↦
      let z : find_rule s.rules p n ≡ lookup n prs = rw (k, find_rule) refl in
      rw (k, rules_of) (lookup-In n prs (sym z ∙ q))
]

All-In : (P : Text → Type 0) (a : Text) (xs : List Text) → All P xs → In a xs → P a
All-In P a [] ps i = elim i [ ]
All-In P a (x ∷ xs) (p, ps) (here e) = subst P (sym e) p
All-In P a (x ∷ xs) (p, ps) (there i) = All-In P a xs ps i

module _ (decode : Text → Result Text Rule) (h : Host) (system : System) (ts : Tracer.Registered)
    (acts : Action.Registered) (s t : Server) (done : Performed)
    (started : start decode h system ts acts ≡ ok s)
    (has_stdout : In (codes "stdout") (list_actions acts)) (reached : Reach h s done t) where
  -- In every server that a daemon reaches, having started with the action "stdout" compiled in, and for
  -- whatever happens next: if it runs an action, then it is a `WatchEvent` that returned an event, the
  -- action gets this event, completed, and is justified by this very server: the event has data, and
  -- either its tracer has no rule there and the action is "stdout", or a rule of that tracer there
  -- matches the event and lists the action, and the action is one that the daemon has made.
  pub performed-IsJustified :
      (i : Input) (u : Server) (now : Performed) (a : Text) (x : Event)
      → perform h i t ≡ some (u, now)
      → In (a, x) now
      → Reports h x i × IsJustified t a x
  performed-IsJustified i u now a x q m =
      perform-IsJustified h i t u now a x
        (start-Reach-IsServing decode h system ts acts s t done started has_stdout reached) q m

  -- If a tracer reports an event with data in a server that a daemon reaches, having started with
  -- the action "stdout" compiled in, and a rule in the table under that tracer matches the event,
  -- then every action of the rule is run with the event: none is left out as unknown.
  pub rule_actions_run :
      (p n : Text) (e : Event) (d : List (Text × Text)) (r : Rule) (a : Text)
      → e.event_data ≡ some d
      → find_rule t.rules p n ≡ some r
      → matches r d (complete h p e).container_runtime ≡ true
      → In a r.actions
      → (u : Server) × (now : Performed) × (perform h (event p (returned (some e))) t
          ≡ some (u, now))
        × In (a, complete h p e) now
  unfolding perform watch_round
  rule_actions_run p n e d r a j f y w =
      let v = start-Reach-IsServing decode h system ts acts s t done started has_stdout reached in
      let out = respond (complete h p e) d (rules_of p t) t in
      let k : In a t.actions = rw v.made (
        All-In (λ b. In b t.action_list) a r.actions (v.consistent.supported p n r f).known_actions
          w) in
      (
        out.0,
        out.1,
        handle_event_lem h p e d t v.prints j,
        respond-In (complete h p e) d (rules_of p t) t n r a (rules_of-find_rule t p n r f) y w k,
      )

-- ===== src/Api/Loop/Laws.antt =====
-- What the goroutine of a tracer does with an event: which actions run, and what is queued.
use bpfd.Prelude.{
  ℕ, suc, ◌≡◌, refl, ap, inl, inr, none, some, List, [], ◌∷◌, ◌++◌, append_assoc, append-nil, arith,
  if◌then◌else◌, Bool-cases, Option-cases, ◌==◌, nat_eq, length, replicate, is_empty, In,
  any_complete, Text, codes, text_beq_refl, text_eq,
}
use bpfd.Grpc.{Rule, Event}
use bpfd.GoMap.{lookup}
use bpfd.Proc.{Host}
use bpfd.Rules.{matches}
use bpfd.Api.{Server, add_event}
use bpfd.Api.Loop.{Performed, run_actions, apply_rules, complete, handle_event}

-- The rules of a map that match, in its order.
abbrev pub matching : Event → List (Text × Text) → List (Text × Rule) → List Rule
matching e d [] = []
matching e d ((n, r) ∷ rules) =
    if matches r d e.container_runtime then r ∷ matching e d rules else matching e d rules

-- The actions of the rules given that the daemon has, rule by rule.
abbrev pub actions_of : List Text → Event → List Rule → Performed
actions_of known e [] = []
actions_of known e (r ∷ rs) = run_actions known r.actions e ++ actions_of known e rs

-- The event is queued a number of times if the server streams.
abbrev pub queued : ℕ → Event → Server → Server
queued n e s = if s.is_streaming then record s { events = s.events ++ replicate n e } else s

queued-suc : (n : ℕ) (e : Event) (s : Server) → queued n e (add_event e s) ≡ queued (suc n) e s
unfolding add_event
queued-suc n e s = ground (arith, append_assoc s.events (e ∷ []) (replicate n e))

actions-add_event : (e : Event) (s : Server) → (add_event e s).actions ≡ s.actions
unfolding add_event
actions-add_event e s = ground arith

apply_rules_lem :
    (rules : List (Text × Rule)) (e : Event) (d : List (Text × Text)) (s : Server)
    (done : Performed)
    → apply_rules rules e d s done ≡ (
      queued (length (matching e d rules)) e s,
      done ++ actions_of s.actions e (matching e d rules),
    )
unfolding apply_rules
apply_rules_lem [] e d s done = ground (arith, append-nil done, append-nil s.events)
apply_rules_lem ((n, r) ∷ rules) e d s done = elim (Bool-cases (matches r d e.container_runtime)) [
  | inl t ↦ ground (
    arith,
    apply_rules_lem rules e d (add_event e s) (done ++ run_actions s.actions r.actions e),
    queued-suc (length (matching e d rules)) e s,
    actions-add_event e s,
    append_assoc done (run_actions s.actions r.actions e)
        (actions_of s.actions e (matching e d rules)),
  )
  | inr f ↦ ground (arith, apply_rules_lem rules e d s done)
]

abbrev pub rules_of : Text → Server → List (Text × Rule)
rules_of p s = elim (lookup p s.rules) [ none ↦ [] | some rules ↦ rules ]

-- What an event with data leads to: without rules for the tracer, "stdout" alone and the event queued
-- once; with rules, the actions of those that match, and the event queued once for each of them.
abbrev pub respond : Event → List (Text × Text) → List (Text × Rule) → Server → Server × Performed
respond e d [] s = (queued 1 e s, (codes "stdout", e) ∷ [])
respond e d (r ∷ rules) s = (
  queued (length (matching e d (r ∷ rules))) e s,
  actions_of s.actions e (matching e d (r ∷ rules)),
)

queued_one : (e : Event) (s : Server) → add_event e s ≡ queued 1 e s
unfolding add_event
queued_one e s = refl

respond_with :
    (rules : List (Text × Rule)) (e : Event) (d : List (Text × Text)) (s : Server)
    → (if is_empty rules
        then some (add_event e s, (codes "stdout", e) ∷ [])
        else some (apply_rules rules e d s []))
      ≡ some (respond e d rules s)
respond_with [] e d s = ap (λ (t : Server). some (t, (codes "stdout", e) ∷ [])) (queued_one e s)
respond_with (r ∷ rules) e d s = ap some (apply_rules_lem (r ∷ rules) e d s [])

pub handle_event_lem :
    (h : Host) (p : Text) (e : Event) (d : List (Text × Text)) (s : Server)
    → In (codes "stdout") s.actions
    → e.event_data ≡ some d
    → handle_event h p (some e) s ≡ some (respond (complete h p e) d (rules_of p s) s)
unfolding handle_event
handle_event_lem h p e d s known ed =
    let k =
      any_complete (λ k. k == codes "stdout") (codes "stdout") s.actions known (text_beq_refl _) in
    elim (Option-cases (lookup p s.rules)) [
      | inl n ↦ ground (arith, queued_one (complete h p e) s)
      | inr (rules, j) ↦ ground (arith, respond_with rules (complete h p e) d s)
    ]

-- An event without data is dropped: the server stays as it was and no action runs, whatever the rules.
pub handle_event_no_data :
    (h : Host) (p : Text) (e : Event) (s : Server)
    → e.event_data ≡ none
    → handle_event h p (some e) s ≡ some (s, [])
unfolding handle_event
handle_event_no_data h p e s ed = rw (ed, handle_event)

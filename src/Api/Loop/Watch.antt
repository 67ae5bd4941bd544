-- ===== src/Api/Loop/Watch.antt =====
-- api/api.go: a round of the goroutine of a tracer, from what `WatchEvent` does on, and which actions it
-- runs.
use bpfd.Prelude.{
  ◌≡◌, refl, ap, ◌↔◌, ◌⊎◌, inl, inr, Option, none, some, List, [], ◌∷◌, nat_eq, In, In-cons, here,
  Text, codes, text_eq,
}
use bpfd.Grpc.{Rule, Event}
use bpfd.Proc.{Host}
use bpfd.Rules.Match.{RuntimeFits, FilterFits, matches_iff}
use bpfd.Tracer.{
  WatchResult, returned, decode_failed, ids_failed, invalid_state, inspect_failed, panicked,
}
use bpfd.Api.{Server}
use bpfd.Api.Loop.{Performed, handle_event, complete}
use bpfd.Api.Loop.Laws.{matching, respond, rules_of, handle_event_lem}
use bpfd.Api.Loop.Matching.{In-matching, In-actions_of, respond-In}

-- `event, err := prog.WatchEvent(ctx)`: an error is logged and comes with no event; a panic ends the
-- daemon
unfoldable pub watch_round : Host → Text → WatchResult → Server → Option (Server × Performed)
watch_round h p (returned e) s = handle_event h p e s
watch_round h p decode_failed s = handle_event h p none s
watch_round h p (ids_failed n) s = handle_event h p none s
watch_round h p (invalid_state n) s = handle_event h p none s
watch_round h p (inspect_failed x) s = handle_event h p none s
watch_round h p panicked s = none

-- Why the daemon runs an action with a complete event of a tracer: the tracer has no rule and the action
-- is the default, or one of its rules fits and lists the action, which the daemon has.
abbrev pub Wants : Event → List (Text × Text) → List (Text × Rule) → Server → Text → Type 0
Wants e d rules s a =
    ((rules ≡ []) × (a ≡ codes "stdout"))
    ⊎ ((n : Text) × (r : Rule) × In (n, r) rules
        × RuntimeFits r e.container_runtime
        × FilterFits r d
        × In a r.actions
        × In a s.actions)

pub respond-Wants :
    (e x : Event) (d : List (Text × Text)) (rules : List (Text × Rule)) (s : Server) (a : Text)
    → In (a, x) (respond e d rules s).1 ↔ ((x ≡ e) × Wants e d rules s a)
respond-Wants e x d [] s a = (
  λ i. elim (In-cons i) [
    | inl p ↦ (ap (λ z. z.1) p, inl (refl, ap (λ z. z.0) p))
    | inr k ↦ elim k [ ]
  ],
  λ (p, w). elim w [
    | inl (q, y) ↦ rw (p, y) (here refl)
    | inr (n, r, i, f, g, k, known) ↦ elim i [ ]
  ],
)
respond-Wants e x d (r ∷ rules) s a = (
  λ i.
      let (q, known, (r', m, w)) = In-actions_of s.actions e x (matching e d (r ∷ rules)) a i in
      let (n, k, y) = In-matching e d (r ∷ rules) r' m in
      let (f, g) = (matches_iff r' d e.container_runtime).0 y in
      (q, inr (n, r', k, f, g, w, known)),
  λ (p, w). elim w [
    | inl (q, y) ↦ absurd (cc q)
    | inr (n, r', i, f, g, k, known) ↦ rw p (
        respond-In e d (r ∷ rules) s n r' a i ((matches_iff r' d e.container_runtime).1 (f, g)) k
          known)
  ],
)

-- What a round runs that reports an event with data: exactly the actions that are wanted.
pub record Ran (h : Host) (p : Text) (r : WatchResult) (e : Event) (d : List (Text × Text))
    (s : Server) : Type 0 where
  pub after : Server
  pub now : Performed
  pub round : watch_round h p r s ≡ some (after, now)
  pub exactly :
      (a : Text) (x : Event)
      → In (a, x) now ↔ ((x ≡ complete h p e) × Wants (complete h p e) d (rules_of p s) s a)

pub watch_round-Ran :
    (h : Host) (p : Text) (e : Event) (d : List (Text × Text)) (s : Server)
    → In (codes "stdout") s.actions
    → e.event_data ≡ some d
    → Ran h p (returned (some e)) e d s
unfolding watch_round
watch_round-Ran h p e d s known has = record {
  after = (respond (complete h p e) d (rules_of p s) s).0;
  now = (respond (complete h p e) d (rules_of p s) s).1;
  round = handle_event_lem h p e d s known has;
  exactly = λ a x. respond-Wants (complete h p e) x d (rules_of p s) s a;
}

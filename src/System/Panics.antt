-- ===== src/System/Panics.antt =====
-- Which inputs end the daemon with a panic.
use bpfd.Prelude.{
  ◌≡◌, refl, ◌⊎◌, inl, inr, Option, none, some, [], Option-cases, nat_eq, Text, text_eq,
}
use bpfd.Grpc.{Event}
use bpfd.Proc.{Host}
use bpfd.Tracer.{returned, decode_failed, ids_failed, invalid_state, inspect_failed, panicked}
use bpfd.Api.{Server}
use bpfd.Api.Loop.{Performed, handle_event, complete}
use bpfd.Api.Loop.Laws.{respond, rules_of, handle_event_lem, handle_event_no_data}
use bpfd.Api.Loop.Watch.{watch_round}
use bpfd.System.{Input, event, create, remove, connect, iterate, perform}
use bpfd.System.Invariant.{IsServing}

-- The round of a tracer whose `WatchEvent` panics.
abbrev pub IsPanic : Input → Type 0
IsPanic (event p panicked) = Unit {0}
IsPanic (event p (returned e)) = ⊥
IsPanic (event p decode_failed) = ⊥
IsPanic (event p (ids_failed n)) = ⊥
IsPanic (event p (invalid_state n)) = ⊥
IsPanic (event p (inspect_failed x)) = ⊥
IsPanic (create c) = ⊥
IsPanic (remove r) = ⊥
IsPanic connect = ⊥
IsPanic (iterate c f) = ⊥

-- what an input does to a server that does not panic
abbrev pub Performs : Host → Input → Server → Type 0
Performs h i s = (t : Server) × (done : Performed) × (perform h i s ≡ some (t, done))

handle_event_total :
    (h : Host) (p : Text) (o : Option Event) (s : Server)
    → IsServing s
    → (t : Server) × (done : Performed) × (handle_event h p o s ≡ some (t, done))
unfolding handle_event
handle_event_total h p none s v = (s, [], refl)
handle_event_total h p (some e) s v = elim (Option-cases e.event_data) [
  | inl n ↦ (s, [], handle_event_no_data h p e s n)
  | inr (d, j) ↦
      let out = respond (complete h p e) d (rules_of p s) s in
      (out.0, out.1, handle_event_lem h p e d s v.prints j)
]

-- A server that serves panics exactly in the round of a `WatchEvent` that panics.
pub perform_total :
    (h : Host) (i : Input) (s : Server)
    → IsServing s
    → (IsPanic i × (perform h i s ≡ none)) ⊎ ((IsPanic i → ⊥) × Performs h i s)
unfolding perform watch_round
perform_total h (event p (returned o)) s v = inr (λ k. k, handle_event_total h p o s v)
perform_total h (event p decode_failed) s v = inr (λ k. k, handle_event_total h p none s v)
perform_total h (event p (ids_failed n)) s v = inr (λ k. k, handle_event_total h p none s v)
perform_total h (event p (invalid_state n)) s v = inr (λ k. k, handle_event_total h p none s v)
perform_total h (event p (inspect_failed x)) s v = inr (λ k. k, handle_event_total h p none s v)
perform_total h (event p panicked) s v = inl (tt, refl)
perform_total h (create c) s v = inr (λ k. k, (_, [], refl))
perform_total h (remove r) s v = inr (λ k. k, (_, [], refl))
perform_total h connect s v = inr (λ k. k, (_, [], refl))
perform_total h (iterate c f) s v = inr (λ k. k, (_, [], refl))

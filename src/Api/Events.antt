-- ===== src/Api/Events.antt =====
-- The buffer of events: what `addEvent` and `popEvent` do to it.
use bpfd.Prelude.{
  ◌≡◌, refl, ap, ◌⊎◌, inl, inr, true, false, none, some, List, [], ◌∷◌, ◌++◌, arith, Bool-cases,
  Option-cases, nat_eq, get_last?, init, get_last?-append, init-append, text_eq,
}
use bpfd.Grpc.{Event}
use bpfd.Api.{Server, add_event, pop_event}

pub last_init : (es : List Event) (e : Event) → get_last? es ≡ some e → es ≡ init es ++ e ∷ []
last_init [] e h = cc
last_init (x ∷ []) e h = cc
last_init (x ∷ y ∷ es) e h = ap (λ t. x ∷ t) (last_init (y ∷ es) e h)

-- While the server streams, an event that is added is the next one popped, and the pop leaves the
-- server as it was: the buffer is a stack. While it does not stream, adding changes nothing.
pub pop_event-add_event :
    (e : Event) (s : Server)
    → ((s.is_streaming ≡ true) × (pop_event (add_event e s) ≡ (some e, s)))
      ⊎ ((s.is_streaming ≡ false) × (add_event e s ≡ s))
unfolding pop_event add_event
pop_event-add_event e s = elim (Bool-cases s.is_streaming) [
  | inl t ↦ inl (t, ground (arith, get_last?-append s.events e, init-append s.events e))
  | inr f ↦ inr (f, rw f)
]

last_none : (es : List Event) → get_last? es ≡ none → es ≡ []
last_none [] h = refl
last_none (x ∷ []) h = cc
last_none (x ∷ y ∷ es) h = absurd (cc (last_none (y ∷ es) h))

-- A pop returns no event exactly when the buffer is empty, and then it changes nothing; otherwise it
-- takes the event at the end off the buffer. It never touches another field.
pub pop_event_cases :
    (s : Server)
    → ((s.events ≡ []) × (pop_event s ≡ (none, s)))
      ⊎ ((e : Event) × (before : List Event) × (s.events ≡ before ++ e ∷ [])
          × (pop_event s ≡ (some e, record s { events = before })))
unfolding pop_event
pop_event_cases s = elim (Option-cases (get_last? s.events)) [
  | inl n ↦ inl (last_none s.events n, rw (n, pop_event))
  | inr (e, j) ↦ inr (e, init s.events, last_init s.events e j, rw (j, pop_event))
]

-- ===== src/Api/Trace/Delivery.antt =====
-- What a client of `LiveTrace` receives: nothing is lost or invented, the order is that of a stack,
-- and events left by one client go to the next.
use bpfd.Prelude.{
  ◌+◌, ◌≡◌, refl, sym, ap, ◌∙◌, inl, inr, Bool, true, false, some, List, [], ◌∷◌, ◌++◌, map,
  append_assoc, append-nil, arith, if◌then◌else◌, Option-cases, nat_eq, length, replicate,
  get_last?, init, get_last?-append, init-append, count_if, count_if-append, text_eq,
}
use mathlib.Core.List.{map, reverse, reverse-append, reverse-reverse}
use bpfd.Grpc.{Event}
use bpfd.Api.{Server, add_event}
use bpfd.Api.Events.{last_init}
use bpfd.Api.Trace.{Iteration, finished, idle, sent, failed, open_stream, trace_step}

-- What may happen to the buffer, in any order: the goroutine of a tracer adds an event, a client calls
-- `LiveTrace`, and a client's loop makes an iteration, for which the environment says whether the
-- stream's context is done and whether `Send` fails.
pub data Step : Type 0 where
  emit : Event → Step
  connect : Step
  iterate : Bool → Bool → Step

-- The server and what became of the events: those that tracers added while the server streamed,
-- those that clients were sent, and those that a failed `Send` lost.
pub record History : Type 0 where
  pub server : Server
  pub accepted : List Event
  pub delivered : List Event
  pub lost : List Event

pub record_iteration : Iteration → Server → History → History
record_iteration finished s h = record h { server = s }
record_iteration idle s h = record h { server = s }
record_iteration (sent e) s h = record h { server = s; delivered = h.delivered ++ e ∷ [] }
record_iteration (failed e) s h = record h { server = s; lost = h.lost ++ e ∷ [] }

unfoldable pub advance : Step → History → History
unfolding record_iteration trace_step add_event open_stream
advance (emit e) h = record h {
  server = add_event e h.server;
  accepted = if h.server.is_streaming then h.accepted ++ e ∷ [] else h.accepted;
}
advance connect h = record h { server = open_stream h.server }
advance (iterate done fails) h =
    let (it, s) = trace_step done fails h.server in record_iteration it s h

unfoldable pub run : List Step → History → History
run [] h = h
run (x ∷ xs) h = run xs (advance x h)

abbrev pub start : Server → History
start s = record { server = s; accepted = []; delivered = []; lost = [] }

abbrev IsBalanced : (Event → Bool) → List Event → History → Type 0
IsBalanced p before h =
    count_if p h.delivered + count_if p h.lost + count_if p h.server.events
    ≡ count_if p before + count_if p h.accepted

advance-IsBalanced :
    (p : Event → Bool) (before : List Event) (x : Step) (h : History)
    → IsBalanced p before h
    → IsBalanced p before (advance x h)
unfolding advance
advance-IsBalanced p before (emit e) h b =
    ground
      (arith, count_if-append p h.accepted (e ∷ []), count_if-append p h.server.events (e ∷ []))
advance-IsBalanced p before connect h b = b
advance-IsBalanced p before (iterate done fails) h b =
    elim (Option-cases (get_last? h.server.events)) [
      | inl n ↦ ground arith
      | inr (e, j) ↦ ground (
        arith,
        ap (count_if p) (last_init h.server.events e j),
        count_if-append p (init h.server.events) (e ∷ []),
        count_if-append p h.delivered (e ∷ []),
        count_if-append p h.lost (e ∷ []),
      )
    ]

run-IsBalanced :
    (p : Event → Bool) (before : List Event) (xs : List Step) (h : History)
    → IsBalanced p before h
    → IsBalanced p before (run xs h)
unfolding run
run-IsBalanced p before [] h b = b
run-IsBalanced p before (x ∷ xs) h b =
    run-IsBalanced p before xs (advance x h) (advance-IsBalanced p before x h b)

-- Whatever the interleaving of tracers, clients, cancelled streams and failed sends: the events that
-- clients were sent, those that a failed send lost and those that are still in the buffer are, with
-- their numbers, the events that were in the buffer before and those added since while the server
-- streamed. The test `p` picks any kind of event, so no event is duplicated, invented or dropped.
pub delivery_conserves :
    (s : Server) (xs : List Step) (p : Event → Bool)
    → count_if p (run xs (start s)).delivered
        + count_if p (run xs (start s)).lost
        + count_if p (run xs (start s)).server.events
      ≡ count_if p s.events + count_if p (run xs (start s)).accepted
delivery_conserves s xs p = run-IsBalanced p s.events xs (start s) (omega arith)

abbrev pub poll : Step
poll = iterate false false

pub poll_one :
    (r : Event) (base : List Event) (h : History)
    → h.server.is_streaming ≡ true
    → h.server.events ≡ base ++ r ∷ []
    → advance poll h
      ≡ record h { server = record h.server { events = base }; delivered = h.delivered ++ r ∷ [] }
unfolding advance
poll_one r base h on e =
    let last : get_last? h.server.events ≡ some r = ap get_last? e ∙ get_last?-append base r in
    let rest : init h.server.events ≡ base = ap init e ∙ init-append base r in ground arith

pub drain :
    (rs base : List Event) (h : History)
    → h.server.is_streaming ≡ true
    → h.server.events ≡ base ++ reverse rs
    → run (replicate (length rs) poll) h
      ≡ record h { server = record h.server { events = base }; delivered = h.delivered ++ rs }
unfolding run
drain [] base h on e = ground (arith, append-nil base, append-nil h.delivered)
drain (r ∷ rs) base h on e =
    ap (run (replicate (length rs) poll)) (
      poll_one r (base ++ reverse rs) h on (
        e
        ∙ ap (λ t. base ++ t) (reverse-append (r ∷ []) rs)
        ∙ sym (append_assoc base (reverse rs) (r ∷ []))))
    ∙ drain rs base _ on refl
    ∙ ap
        (λ (t : List Event).
          let g : History = record h {
            server = record h.server { events = base };
            delivered = t;
          } in
          g)
        (append_assoc h.delivered (r ∷ []) rs)

pub emit_one :
    (e : Event) (h : History)
    → h.server.is_streaming ≡ true
    → advance (emit e) h ≡ record h {
      server = record h.server { events = h.server.events ++ e ∷ [] };
      accepted = h.accepted ++ e ∷ [];
    }
unfolding advance
emit_one e h on = ground arith

emits :
    (es : List Event) (h : History)
    → h.server.is_streaming ≡ true
    → run (map emit es) h ≡ record h {
      server = record h.server { events = h.server.events ++ es };
      accepted = h.accepted ++ es;
    }
unfolding run
emits [] h on = ground (arith, append-nil h.server.events, append-nil h.accepted)
emits (e ∷ es) h on =
    ap (run (map emit es)) (emit_one e h on)
    ∙ emits es _ on
    ∙ ground (arith, append_assoc h.server.events (e ∷ []) es, append_assoc h.accepted (e ∷ []) es)

pub run-append : (xs ys : List Step) (h : History) → run (xs ++ ys) h ≡ run ys (run xs h)
unfolding run
run-append [] ys h = refl
run-append (x ∷ xs) ys h = run-append xs ys (advance x h)

-- A burst of events that tracers add while the server streams, followed by as many undisturbed
-- iterations, reaches the client in reverse order, the latest event first; what was in the buffer
-- before the burst stays there.
pub burst_reversed :
    (es : List Event) (h : History)
    → h.server.is_streaming ≡ true
    → run (map emit es ++ replicate (length (reverse es)) poll) h
      ≡ record h { accepted = h.accepted ++ es; delivered = h.delivered ++ reverse es }
burst_reversed es h on =
    run-append (map emit es) (replicate (length (reverse es)) poll) h
    ∙ ap (run (replicate (length (reverse es)) poll)) (emits es h on)
    ∙ drain (reverse es) h.server.events _ on
        (ap (λ t. h.server.events ++ t) (sym (reverse-reverse es)))

emits_off :
    (es : List Event) (h : History) → h.server.is_streaming ≡ false → run (map emit es) h ≡ h
unfolding run advance
emits_off [] h off = refl
emits_off (e ∷ es) h off =
    ap (run (map emit es)) (let q : advance (emit e) h ≡ h = ground arith in q) ∙ emits_off es h off

-- what the cancelled stream leaves
abandoned : Event → History → History
abandoned e h = record h {
  server = record h.server { events = h.server.events ++ e ∷ []; is_streaming = false };
  accepted = h.accepted ++ e ∷ [];
}

leave :
    (e : Event) (fails : Bool) (h : History)
    → h.server.is_streaming ≡ true
    → advance (iterate true fails) (advance (emit e) h) ≡ abandoned e h
unfolding advance abandoned
leave e fails h on = ground arith

-- An event that a tracer added for one client is still in the buffer when that client's stream is
-- cancelled, and the next client that calls `LiveTrace` receives it, whatever tracers report between
-- the two calls.
pub stale_event :
    (e : Event) (between : List Event) (fails : Bool) (h : History)
    → h.server.is_streaming ≡ true
    → (run (emit e ∷ iterate true fails ∷ map emit between ++ connect ∷ poll ∷ []) h).delivered
      ≡ h.delivered ++ e ∷ []
unfolding run abandoned advance
stale_event e between fails h on =
    ap (λ g. (run (map emit between ++ connect ∷ poll ∷ []) g).delivered) (leave e fails h on)
    ∙ ap (λ g. g.delivered) (run-append (map emit between) (connect ∷ poll ∷ []) (abandoned e h))
    ∙ ap (λ g. (run (connect ∷ poll ∷ []) g).delivered) (emits_off between (abandoned e h) refl)
    ∙ ap (λ g. g.delivered) (poll_one e h.server.events (advance connect (abandoned e h)) refl refl)

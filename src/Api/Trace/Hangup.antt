-- ===== src/Api/Trace/Hangup.antt =====
-- api/api.go: `LiveTrace` with several clients, which share one flag.
use bpfd.Prelude.{
  ◌≡◌, refl, ap, ◌∙◌, Bool, true, false, some, List, [], ◌∷◌, ◌++◌, arith, nat_eq, get_last?, init,
  get_last?-append, init-append, All, text_eq,
}
use bpfd.Grpc.{Event}
use bpfd.Api.Trace.Delivery.{Step, emit, connect, iterate, run, advance, History}

-- not a new call of `LiveTrace`
abbrev pub NoConnect : Step → Type 0
NoConnect connect = ⊥
NoConnect (emit e) = Unit {0}
NoConnect (iterate c f) = Unit {0}

stopped_step :
    (x : Step) (h : History) → NoConnect x → h.server.is_streaming ≡ false → advance x h ≡ h
unfolding advance
stopped_step (emit e) h n off = rw off refl
stopped_step connect h n off = absurd n
stopped_step (iterate c f) h n off = rw off refl

stopped_run :
    (xs : List Step) (h : History) → All NoConnect xs → h.server.is_streaming ≡ false → run xs h ≡ h
unfolding run
stopped_run [] h n off = refl
stopped_run (x ∷ xs) h (n, ns) off = ap (run xs) (stopped_step x h n off) ∙ stopped_run xs h ns off

-- the history once the flag is off
abbrev pub hung_up : History → History
hung_up h = record h { server = record h.server { is_streaming = false } }

cancelled : (f : Bool) (h : History) → advance (iterate true f) h ≡ hung_up h
unfolding advance
cancelled f h = ground arith

-- the history once an event could not be sent
abbrev pub broken_off : Event → List Event → History → History
broken_off e base h = record h {
  server = record h.server { is_streaming = false; events = base };
  lost = h.lost ++ e ∷ [];
}

failed_send :
    (e : Event) (base : List Event) (h : History)
    → h.server.is_streaming ≡ true
    → h.server.events ≡ base ++ e ∷ []
    → advance (iterate false true) h ≡ broken_off e base h
unfolding advance
failed_send e base h on q =
    let last : get_last? h.server.events ≡ some e = ap get_last? q ∙ get_last?-append base e in
    let rest : init h.server.events ≡ base = ap init q ∙ init-append base e in ground arith

-- How the loop of a stream is left while events are streamed: its context is done, whatever the buffer has, or
-- the event on top of the buffer cannot be sent. The second history is the one behind it.
pub data Leaves (h : History) : Step → History → Type 0 where
  gone : (f : Bool) → Leaves h (iterate true f) (hung_up h)
  unsent :
      (e : Event) (base : List Event)
      → h.server.events ≡ base ++ e ∷ []
      → Leaves h (iterate false true) (broken_off e base h)

-- One client that leaves ends the streams of all, an iteration of a loop being one step. Once an iteration of
-- one stream leaves its loop, the context being done or the event on top of the buffer not sent, then
-- whatever tracers report and all loops do behind it, as long as no client calls `LiveTrace` anew: nobody is
-- sent anything more, no event is queued, and the buffer stays as it is.
pub hangup_ends_others :
    (x : Step) (xs : List Step) (h u : History)
    → All NoConnect xs
    → h.server.is_streaming ≡ true
    → Leaves h x u
    → run (x ∷ xs) h ≡ u
unfolding run
hangup_ends_others _ xs h _ quiet on (gone f) =
    ap (run xs) (cancelled f h) ∙ stopped_run xs (hung_up h) quiet refl
hangup_ends_others _ xs h _ quiet on (unsent e base q) =
    ap (run xs) (failed_send e base h on q) ∙ stopped_run xs (broken_off e base h) quiet refl

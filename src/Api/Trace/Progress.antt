-- ===== src/Api/Trace/Progress.antt =====
-- How long an event waits for a client of `LiveTrace`.
use bpfd.Prelude.{
  ◌≡◌, refl, sym, ap, ◌∙◌, true, List, [], ◌∷◌, ◌++◌, append_assoc, append-nil, arith, nat_eq,
  length, replicate, length-append, text_eq,
}
use mathlib.Core.List.{reverse, reverse-append, reverse-reverse}
use bpfd.Grpc.{Event}
use bpfd.Api.Trace.Delivery.{Step, emit, poll, run, History, advance, poll_one, emit_one, drain}

length-reverse : (es : List Event) → length (reverse es) ≡ length es
length-reverse [] = refl
length-reverse (e ∷ es) =
    ap length (reverse-append (e ∷ []) es)
    ∙ length-append (reverse es) (e ∷ [])
    ∙ omega (arith, length-reverse es)

-- While the server streams, a client whose stream is neither cancelled nor fails empties the
-- buffer, if no tracer reports anything meanwhile: as many iterations as there are events deliver
-- each of them, the latest first.
pub poll_delivers :
    (h : History)
    → h.server.is_streaming ≡ true
    → run (replicate (length h.server.events) poll) h ≡ record h {
      server = record h.server { events = [] };
      delivered = h.delivered ++ reverse h.server.events;
    }
poll_delivers h on =
    ap (λ n. run (replicate n poll) h) (sym (length-reverse h.server.events))
    ∙ drain (reverse h.server.events) [] h on (sym (reverse-reverse h.server.events))

-- Each event of a list is reported just before an iteration.
abbrev pub busy : List Event → List Step
busy [] = []
busy (e ∷ es) = emit e ∷ poll ∷ busy es

-- As long as the server streams and a tracer reports an event before each iteration, the events
-- that were in the buffer stay there: the client receives the new ones only, and however long that
-- goes on, none of the old ones.
pub busy_starves :
    (es : List Event) (h : History)
    → h.server.is_streaming ≡ true
    → run (busy es) h ≡ record h { accepted = h.accepted ++ es; delivered = h.delivered ++ es }
unfolding run
busy_starves [] h on = ground (arith, append-nil h.accepted, append-nil h.delivered)
busy_starves (e ∷ es) h on =
    ap (λ g. run (busy es) (advance poll g)) (emit_one e h on)
    ∙ ap (run (busy es)) (poll_one e h.server.events _ on refl)
    ∙ busy_starves es _ on
    ∙ ground (arith, append_assoc h.accepted (e ∷ []) es, append_assoc h.delivered (e ∷ []) es)

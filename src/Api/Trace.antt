-- ===== src/Api/Trace.antt =====
-- api/api.go: `LiveTrace`, one iteration of its loop at a time.
pub mod Delivery
pub mod Progress
pub mod Hangup
use bpfd.Prelude.{Bool, true, false, not, none, some, if◌then◌else◌, Eq, nat_eq, text_eq}
use bpfd.Grpc.{Event}
use bpfd.Api.{Server, pop_event}

-- How an iteration of the loop of `LiveTrace` ends.
pub data Iteration : Type 0 where
  -- the loop is left: the flag was off, or the stream's context is done
  finished : Iteration
  -- there was no event
  idle : Iteration
  sent : Event → Iteration
  -- the event was taken from the buffer and could not be sent; the call returns the error
  failed : Event → Iteration

-- `LiveTrace` up to its loop
unfoldable pub open_stream : Server → Server
open_stream s = record s { is_streaming = true }

-- One iteration, given whether the context of the stream is done and whether `Send` would fail.
unfoldable pub trace_step : Bool → Bool → Server → Iteration × Server
unfolding pop_event
trace_step context_done send_fails s =
    if not s.is_streaming
    then (finished, s)
    else if context_done
    then (finished, record s { is_streaming = false })
    else let (popped, s') = pop_event s in
      elim popped [
        | none ↦ (idle, s')
        | some event ↦
            if send_fails
            then (failed event, record s' { is_streaming = false })
            else (sent event, s')
      ]

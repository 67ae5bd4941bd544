-- ===== src/System.antt =====
-- The running daemon of api/api.go as a whole: the goroutines of the tracers, the calls of the service and
-- the streams, which share the server. A round of a goroutine, a call and an iteration of a stream's loop
-- are one step each, so an execution is a sequence of inputs in any order. The goroutines do not take the
-- mutex of the rules; here no range over the rules meets a write.
pub mod Invariant
pub mod Panics
pub mod Actions
pub mod Requests
pub mod Kernel
pub mod Dropped
pub mod Kill
pub mod Traced
pub mod Inert
use bpfd.Prelude.{◌≡◌, Bool, Option, some, [], ◌++◌, Eq, nat_eq, Text, text_eq}
use bpfd.Grpc.{CreateRuleRequest, RemoveRuleRequest}
use bpfd.Proc.{Host}
use bpfd.Api.{Server, create_rule, remove_rule}
use bpfd.Api.Trace.{open_stream, trace_step}
use bpfd.Tracer.{WatchResult}
use bpfd.Api.Loop.{Performed}
use bpfd.Api.Loop.Watch.{watch_round}

-- What may happen next: a tracer's `WatchEvent` returns or panics, a client sends a request, a client opens a stream,
-- or the loop of a stream makes an iteration, for which the environment says whether the context is done
-- and whether `Send` fails.
pub data Input : Type 0 where
  event : Text → WatchResult → Input
  create : Option CreateRuleRequest → Input
  remove : Option RemoveRuleRequest → Input
  connect : Input
  iterate : Bool → Bool → Input

-- The server then and the actions run, `none` for a panic.
unfoldable pub perform : Host → Input → Server → Option (Server × Performed)
unfolding watch_round create_rule remove_rule open_stream trace_step
perform h (event p w) s = watch_round h p w s
perform h (create c) s = some ((create_rule c s).1, [])
perform h (remove r) s = some ((remove_rule r s).1, [])
perform h connect s = some (open_stream s, [])
perform h (iterate context_done send_fails) s = some ((trace_step context_done send_fails s).1, [])

-- The servers that an execution from `s` may lead to, with the actions run on the way.
pub data Reach (h : Host) (s : Server) : Performed → Server → Type 0 where
  initially : Reach h s [] s
  step :
      {before : Performed} {t : Server}
      → Reach h s before t
      → (i : Input) (u : Server) (now : Performed) → perform h i t ≡ some (u, now)
      → Reach h s (before ++ now) u

-- ===== src/System/Dropped.antt =====
-- From a segment that the kernel drops to the actions that the daemon runs for it: the bpf program and
-- the tracer of tracer/tcpdrop/tcpdrop.go, and the goroutine of api/api.go, together.
use bpfd.Prelude.{ℕ, ◌<◌, ◌≡◌, refl, sym, ◌∙◌, some, [], subst, nat_eq, Text, codes, text_eq}
use bpfd.Proc.{Host}
use bpfd.Proc.Foreign.{IsForeign}
use bpfd.Tcp.{states}
use bpfd.Tracer.TcpDrop
use bpfd.Bpf.{Task, IsTask}
use bpfd.Bpf.TcpDrop.Laws.{Headers, IsHeaders}
use bpfd.Bpf.TcpDrop.Events.{sent, dropped_event, dropped_data, watch_event-dropped}
use bpfd.Api.{Server}
use bpfd.Api.Loop.{complete}
use bpfd.Api.Loop.Watch.{Ran, watch_round-Ran}
use bpfd.System.Invariant.{IsServing}
use bpfd.System.Kernel.{complete-IsForeign}

-- From a dropped segment to the actions that the daemon runs for it. The state of the socket has a name,
-- the process is not among the tasks of its parent, and the server is one that serves. Then the round
-- that reads the segment does not panic, and the actions that it runs are exactly these: the default
-- where "tcpdrop" has no rule, and otherwise those that the daemon has of each rule whose runtimes fit
-- and of whose filters one has a value that occurs in the addresses, the ports, the state, the flags, or
-- the two wrong numbers. All of them get the event with the IDs of the task and no container ID.
pub dropped_actions :
    (h : Host) (t : Task) (q : Headers) (state rc : ℕ) (st : Text) (s : Server)
    → IsTask t
    → IsHeaders q
    → state < 256
    → states state ≡ some st
    → IsForeign h t.parent t.pid
    → IsServing s
    → let e = dropped_event t q rc st in
      Ran h (codes "tcpdrop") (TcpDrop.watch_event (sent t q state rc)) e (dropped_data q st) s
      × ((complete h (codes "tcpdrop") e).container_id ≡ [])
dropped_actions h t q state rc st s ht hq hs named f w =
    let e = dropped_event t q rc st in
    let reads = watch_event-dropped t q state rc ht hq hs ∙ rw named refl in
    (
      subst (λ r. Ran h (codes "tcpdrop") r e (dropped_data q st) s) (sym reads)
          (watch_round-Ran h (codes "tcpdrop") e (dropped_data q st) s w.prints refl),
      complete-IsForeign h (codes "tcpdrop") e refl f,
    )

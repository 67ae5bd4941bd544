-- ===== src/Examples/Dropped.antt =====
-- The theorem about dropped segments at a concrete segment.
use bpfd.Prelude.{◌≡◌, refl, some, [], nat_eq, codes, text_eq, arith}
use bpfd.Tcp.{states}
use bpfd.Tracer.TcpDrop
use bpfd.Bpf.TcpDrop.Events.{sent, dropped_event, dropped_data}
use bpfd.Api.Loop.{complete}
use bpfd.Api.Loop.Watch.{Ran}
use bpfd.System.Dropped.{dropped_actions}
use bpfd.Examples.Kernel.{
  shell, shell-IsTask, bare_host, shell-IsForeign, headers, headers-IsHeaders,
}
use bpfd.Examples.Builtin.{killing, killing-IsServing}

established : states 1 ≡ some (codes "ESTABLISHED")
unfolding states
established = refl

dropped_actions_example :
    Ran bare_host
      (codes "tcpdrop")
      (TcpDrop.watch_event (sent shell headers 1 0))
      (dropped_event shell headers 0 (codes "ESTABLISHED"))
      (dropped_data headers (codes "ESTABLISHED"))
      killing
    × ((complete bare_host
          (codes "tcpdrop")
          (dropped_event shell headers 0 (codes "ESTABLISHED"))).container_id
        ≡ [])
dropped_actions_example =
    dropped_actions bare_host shell headers 1 0 (codes "ESTABLISHED") killing shell-IsTask
      headers-IsHeaders (omega arith) established shell-IsForeign killing-IsServing

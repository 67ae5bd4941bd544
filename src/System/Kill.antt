-- ===== src/System/Kill.antt =====
-- From a call in the kernel to the processes that the daemon kills for it.
use bpfd.Prelude.{
  ℕ, ◌≡◌, refl, sym, ap, ◌∙◌, ◌↔◌, inl, inr, none, some, List, map, nat_eq, In, Text, codes,
  text_eq,
}
use bpfd.Grpc.{Rule, Event}
use bpfd.Proc.{Host}
use bpfd.Proc.Foreign.{IsForeign}
use bpfd.Rules.Match.{RuntimeFits, FilterFits}
use bpfd.Action.Effects.{Os, killed, do_all, do_all-killed}
use bpfd.Tracer.{WatchResult}
use bpfd.Wire.{strict_string}
use bpfd.Tracer.Exec
use bpfd.Tracer.Exec.{ExecEvent, Args, args_of}
use bpfd.Tracer.Exec.Laws.{run}
use bpfd.Bpf.{Task, IsTask, Memory}
use bpfd.Bpf.Exec.{execve, execve_return, layout}
use bpfd.Bpf.Exec.Laws.{event_of}
use bpfd.Bpf.Exec.Words.{IsArgv}
use bpfd.Bpf.Exec.Calls.{of_process}
use bpfd.Api.{Server}
use bpfd.Api.Loop.{Performed, complete}
use bpfd.Api.Loop.Laws.{rules_of}
use bpfd.Api.Loop.Watch.{Ran, Wants, watch_round}
use bpfd.System.Invariant.{IsServing}
use bpfd.System.Kernel.{call_event, call_data, execve_actions}

-- A rule among those given fits the event and lists "kill", which the daemon has.
abbrev pub Kills : Event → List (Text × Text) → List (Text × Rule) → Server → Type 0
Kills e d rules s =
    (n : Text) × (r : Rule) × In (n, r) rules
    × RuntimeFits r e.container_runtime
    × FilterFits r d
    × In (codes "kill") r.actions
    × In (codes "kill") s.actions

Wants-kill :
    (e : Event) (d : List (Text × Text)) (rules : List (Text × Rule)) (s : Server)
    → Wants e d rules s (codes "kill")
    → Kills e d rules s
Wants-kill e d rules s (inl (q, k)) = absurd (cc k)
Wants-kill e d rules s (inr k) = k

complete-pid : (h : Host) (p : Text) (e : Event) → (complete h p e).pid ≡ e.pid
unfolding complete
complete-pid h p e = refl

-- the processes that a round kills
pub Ran-killed :
    (os : Os) (h : Host) (p : Text) (w : WatchResult) (e : Event) (d : List (Text × Text))
    (s : Server) (ran : Ran h p w e d s) (n : ℕ)
    → In (killed n) (do_all os ran.now) ↔ (
        (e.pid ≡ n)
        × Kills (complete h p e) d (rules_of p s) s
        × (os.find n ≡ none)
        × (os.kill n ≡ none))
Ran-killed os h p w e d s ran n = (
  λ i.
      let ((y, j, q), f, k) = (do_all-killed os ran.now n).0 i in
      let (same, wants) = (ran.exactly (codes "kill") y).0 j in
      (
        sym (complete-pid h p e) ∙ sym (ap (λ (z : Event). z.pid) same) ∙ q,
        Wants-kill (complete h p e) d (rules_of p s) s wants,
        f,
        k,
      ),
  λ (q, kills, f, k). (do_all-killed os ran.now n).1 (
    (
      complete h p e,
      (ran.exactly (codes "kill") (complete h p e)).1 (refl, inr kills),
      complete-pid h p e ∙ q,
    ),
    f,
    k,
  ),
)

-- From a call of execve to the processes that the daemon kills, in a server that serves. At the return the
-- task may have another user and another name of the command than at the entry; it is not among the tasks
-- of its parent, and the name has a NUL. The round of the tracer's goroutine that reads the return kills
-- exactly the process that made the call, and that exactly if a rule of "exec" whose runtimes fit and of
-- whose filters one has a value that occurs in the words, joined by blanks, or in the type, lists "kill",
-- if the daemon has this action, and if the system finds the process and lets it be killed. The words are
-- those that the tracer had of the process, and those of the call.
pub execve-killed :
    (os : Os) (h : Host) (memory : Memory) (behind : Text) (t u : Task) (filename argv rc : ℕ)
    (ps : List ℕ) (es : List ExecEvent) (args : Args) (c : Text) (s : Server)
    → IsTask u
    → u.pid ≡ t.pid
    → IsArgv memory argv 1 ps
    → of_process t.pid es ≡ map event_of (execve memory behind t filename argv)
    → strict_string u.comm ≡ some c
    → IsForeign h u.parent u.pid
    → IsServing s
    → (next : Server) × (now : Performed) × (watch_round h
          (codes "exec")
          (Exec.watch_event h (layout (execve_return u rc)) (run h es args)).0
          s
        ≡ some (next, now))
      × ((n : ℕ)
          → In (killed n) (do_all os now) ↔ (
              (u.pid ≡ n)
              × Kills
                  (complete h (codes "exec") (call_event args memory u filename rc ps c))
                  (call_data args memory u filename ps)
                  (rules_of (codes "exec") s)
                  s
              × (os.find n ≡ none)
              × (os.kill n ≡ none)))
unfolding Exec.to_event
execve-killed os h memory behind t u filename argv rc ps es args c s v same a own k f w =
    let (ran, gid, id) =
      execve_actions h memory behind t u filename argv rc ps es args c s v same a own k f w in
    (
      ran.after,
      ran.now,
      ran.round,
      λ n.
          Ran-killed os h (codes "exec") _ (call_event args memory u filename rc ps c)
            (call_data args memory u filename ps) s ran n,
    )

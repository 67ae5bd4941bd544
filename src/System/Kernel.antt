-- ===== src/System/Kernel.antt =====
-- From a call in the kernel to the actions that the daemon runs for it: the bpf programs, the tracers of
-- tracer/exec and tracer/open, and the goroutines of api/api.go together.
use bpfd.Prelude.{
  ℕ, ◌≡◌, refl, sym, ◌∙◌, false, some, List, [], ◌∷◌, ◌++◌, map, subst, nat_eq, take, pos, Text,
  codes, text_eq,
}
use bpfd.Grpc.{Event}
use bpfd.Proc.{Host}
use bpfd.Proc.Foreign.{IsForeign, get_container_id-IsForeign}
use bpfd.Wire.{strict_string, bounded_string}
use bpfd.Tracer.Exec
use bpfd.Tracer.Exec.{ExecEvent, Args, args_of}
use bpfd.Tracer.Exec.Laws.{run}
use bpfd.Tracer.Open
use bpfd.Tracer.Open.{is_own, filename_of}
use bpfd.Bpf.{Task, IsTask, Memory, IsMemory}
use bpfd.Bpf.Exec.{execve, execve_return, layout}
use bpfd.Bpf.Exec.Laws.{event_of}
use bpfd.Bpf.Exec.Words.{words_at, IsArgv, ellipsis}
use bpfd.Bpf.Exec.Calls.{of_process, returned_event, watch_event-execve}
use bpfd.Bpf.Open.Laws.{sent, event_of as open_event_of, watch_event-sent}
use bpfd.Strings.{join, format_int, trim_space}
use bpfd.Api.{Server}
use bpfd.Api.Loop.{complete}
use bpfd.Api.Loop.Watch.{Ran, watch_round-Ran}
use bpfd.System.Invariant.{IsServing}

-- the event of a call of execve with these words
abbrev pub exec_event : Task → ℕ → Text → List Text → Event
exec_event t rc c words = Exec.to_event (returned_event t rc) c 0 words

-- what its filters see: the words joined by blanks, and the type of a return
abbrev pub exec_data : List Text → List (Text × Text)
exec_data words = (codes "argv", join words (codes " ")) ∷ (codes "type", format_int (pos 1)) ∷ []

exec_event-data :
    (t : Task) (rc : ℕ) (c : Text) (words : List Text)
    → (exec_event t rc c words).event_data ≡ some (exec_data words)
unfolding Exec.to_event
exec_event-data t rc c words = refl

-- the words that the tracer reports of a call: those that it had of the process before, and its own
abbrev pub reported_words : Args → Memory → Task → ℕ → List ℕ → List Text
reported_words args memory t filename ps =
    args_of t.pid args ++ (words_at memory (filename ∷ take 19 ps) ++ ellipsis 19 ps)

-- the event of the call, and what its filters see
abbrev pub call_event : Args → Memory → Task → ℕ → ℕ → List ℕ → Text → Event
call_event args memory t filename rc ps c =
    exec_event t rc c (reported_words args memory t filename ps)

abbrev pub call_data : Args → Memory → Task → ℕ → List ℕ → List (Text × Text)
call_data args memory t filename ps = exec_data (reported_words args memory t filename ps)

-- where the process is not among the tasks of its parent, the daemon finds no container ID for it
pub complete-IsForeign :
    (h : Host) (p : Text) (e : Event)
    → e.container_id ≡ []
    → IsForeign h e.tgid e.pid
    → (complete h p e).container_id ≡ []
unfolding complete
complete-IsForeign h p e q f = rw (q, complete) (get_container_id-IsForeign h e.tgid e.pid f)

-- From a call of execve to the actions that the daemon runs for it. The conditions are those under which
-- the tracer reports the call, with a task at the return that may have another user and command than
-- the one at the entry, and the server is one that serves. Then the round of the tracer's
-- goroutine that reads the return does not panic, and the actions that it runs are exactly these: the
-- default where "exec" has no rule, and otherwise those that the daemon has of each rule whose runtimes
-- fit and of whose filters one has a value that occurs in the words, joined by blanks, or in the type. The
-- words are those that the tracer had of the process before, and behind them those of the call. All
-- actions get the event with the words, the group 0 and no container ID.
pub execve_actions :
    (h : Host) (memory : Memory) (behind : Text) (t u : Task) (filename argv rc : ℕ) (ps : List ℕ)
    (es : List ExecEvent) (args : Args) (c : Text) (s : Server)
    → IsTask u
    → u.pid ≡ t.pid
    → IsArgv memory argv 1 ps
    → of_process t.pid es ≡ map event_of (execve memory behind t filename argv)
    → strict_string u.comm ≡ some c
    → IsForeign h u.parent u.pid
    → IsServing s
    → let e = exec_event u rc c (reported_words args memory u filename ps) in
      Ran h
        (codes "exec")
        (Exec.watch_event h (layout (execve_return u rc)) (run h es args)).0
        e
        (exec_data (reported_words args memory u filename ps))
        s
      × (e.gid ≡ 0)
      × ((complete h (codes "exec") e).container_id ≡ [])
unfolding Exec.to_event
execve_actions h memory behind t u filename argv rc ps es args c s v same a own k f w =
    let e = call_event args memory u filename rc ps c in
    let d = call_data args memory u filename ps in
    let (reported, forgot) =
      watch_event-execve h memory behind t u filename argv rc ps es args c v same a own k f in
    (
      subst (λ r. Ran h (codes "exec") r e d s) (sym reported)
          (watch_round-Ran h (codes "exec") e d s w.prints
            (exec_event-data u rc c (reported_words args memory u filename ps))),
      refl,
      complete-IsForeign h (codes "exec") e refl f,
    )

-- the event of a call of open
abbrev pub open_event : Memory → Task → ℕ → ℕ → Event
open_event memory t filename rc = Open.to_event (open_event_of memory t filename rc) (0, 0)

-- what its filters see: the name of the file
abbrev pub open_data : Memory → ℕ → List (Text × Text)
open_data memory filename =
    (codes "filename", trim_space (bounded_string 255 (memory 255 filename))) ∷ []

-- From a call of open to the actions that the daemon runs for it. The server is one that serves, the
-- process is not among the tasks of its parent, and the guard of the tracer does not ignore the call.
-- Then the round that reads it does not panic, and the actions that it runs are exactly these: the
-- default where "open" has no rule, and otherwise those that the daemon has of each rule whose runtimes
-- fit and of whose filters one has a value that occurs in the name of the file. All of them get the
-- event with root as user and group and no container ID, whoever made the call.
pub open_actions :
    (h : Host) (memory : Memory) (t : Task) (filename rc : ℕ) (pad : Text) (s : Server)
    → IsMemory memory
    → IsTask t
    → IsForeign h t.parent t.pid
    → is_own (open_event_of memory t filename rc) ≡ false
    → IsServing s
    → let e = open_event memory t filename rc in
      Ran h
        (codes "open")
        (Open.watch_event h (sent memory t filename rc pad))
        e
        (open_data memory filename)
        s
      × (e.uid ≡ 0)
      × (e.gid ≡ 0)
      × ((complete h (codes "open") e).container_id ≡ [])
unfolding Open.to_event
open_actions h memory t filename rc pad s hm ht f o w =
    let e = open_event memory t filename rc in
    let reported = watch_event-sent h memory t filename rc pad hm ht f in
    (
      subst (λ r. Ran h (codes "open") r e (open_data memory filename) s)
          (sym (reported ∙ rw o refl))
          (watch_round-Ran h (codes "open") e (open_data memory filename) s w.prints refl),
      refl,
      refl,
      complete-IsForeign h (codes "open") e refl f,
    )

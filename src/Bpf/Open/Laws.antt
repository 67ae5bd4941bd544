-- ===== src/Bpf/Open/Laws.antt =====
-- A call of open from the kernel to the tracers of tracer/open and tracer/dockeropenbreakout.
use bpfd.Prelude.{
  ℕ, ◌≡◌, refl, ◌∙◌, inl, inr, true, false, none, some, List, arith, if◌then◌else◌, Bool-cases,
  nat_eq, Result, ok, pos, Text, text_eq,
}
use bpfd.Proc.{Host}
use bpfd.Proc.Foreign.{IsForeign, get_uid_gid-IsForeign, get_container_id-IsForeign}
use bpfd.Proc.Status.{get_uid_gid}
use bpfd.Wire.{to_int32}
use bpfd.Tracer.{returned}
use bpfd.Tracer.Open.{OpenEvent, read_open_event, is_own, to_event, watch_open}
use bpfd.Tracer.Open.Laws.{read_open_event_lem, watch_open-own, watch_open-ids}
use bpfd.Tracer.Open
use bpfd.Tracer.DockerOpenBreakout
use bpfd.Tracer.DockerOpenBreakout.Laws.{check_container_out}
use bpfd.Bpf.{Task, IsTask, Memory, IsMemory, to_int}
use bpfd.Bpf.Open.{gather, set_return, layout}

-- what the tracer reads of the data of a call
abbrev pub event_of : Memory → Task → ℕ → ℕ → OpenEvent
event_of memory t filename rc = record {
  pid = t.pid;
  tgid = t.parent;
  return_value = to_int32 (to_int rc);
  comm = t.comm;
  filename = memory 255 filename;
}

-- what the kernel sends of it
abbrev pub sent : Memory → Task → ℕ → ℕ → Text → Text
sent memory t filename rc pad = layout (set_return (gather memory t filename) rc) pad

read_open_event-sent :
    (memory : Memory) (t : Task) (filename rc : ℕ) (pad : Text)
    → IsMemory memory
    → IsTask t
    → read_open_event (sent memory t filename rc pad) ≡ some (event_of memory t filename rc, pad)
unfolding layout set_return gather
read_open_event-sent memory t filename rc pad hm ht =
    read_open_event_lem t.pid t.parent (to_int rc) t.comm (memory 255 filename) pad ht.pid ht.parent
      (omega arith) ht.comm (hm.size 255 filename)

watch_event-read :
    (h : Host) (buffer : Text) (e : OpenEvent) (rest : Text)
    → read_open_event buffer ≡ some (e, rest)
    → Open.watch_event h buffer ≡ watch_open h e
unfolding Open.watch_event
watch_event-read h buffer e rest r = rw (r, Open.watch_event) refl

-- The program sends the PID of the parent as the thread group, and `GetUIDGID` looks for the
-- process among the tasks of its parent. Where it is not there, of a call of open, read back from
-- the bytes that the program submits, the tracer reports the file, the command, the return value
-- and the two IDs as they were, unless its guard ignores the event, but 0 as user and group,
-- whoever made the call.
pub watch_event-sent :
    (h : Host) (memory : Memory) (t : Task) (filename rc : ℕ) (pad : Text)
    → IsMemory memory
    → IsTask t
    → IsForeign h t.parent t.pid
    → Open.watch_event h (sent memory t filename rc pad) ≡ (
        if is_own (event_of memory t filename rc)
        then returned none
        else returned (some (to_event (event_of memory t filename rc) (0, 0))))
watch_event-sent h memory t filename rc pad hm ht f =
    let e = event_of memory t filename rc in
    watch_event-read h _ e pad (read_open_event-sent memory t filename rc pad hm ht)
    ∙ elim (Bool-cases (is_own e)) [
      | inl o ↦ rw o (watch_open-own h e o)
      | inr o ↦ rw o (watch_open-ids h e o (get_uid_gid-IsForeign h t.parent t.pid f))
    ]

module _ (inspect : Text → Result Text (List Text)) where
  breakout-read :
      (h : Host) (buffer : Text) (e : OpenEvent) (rest : Text)
      → read_open_event buffer ≡ some (e, rest)
      → DockerOpenBreakout.watch_event inspect h buffer ≡ DockerOpenBreakout.watch_open inspect h e
  unfolding DockerOpenBreakout.watch_event
  breakout-read h buffer e rest r = rw (r, DockerOpenBreakout.watch_event) refl

  breakout-own :
      (h : Host) (e : OpenEvent)
      → is_own e ≡ true
      → DockerOpenBreakout.watch_open inspect h e ≡ returned none
  unfolding DockerOpenBreakout.watch_open
  breakout-own h e o = rw (o, DockerOpenBreakout.watch_open) refl

  breakout-ids :
      (h : Host) (e : OpenEvent) (ids : ℕ × ℕ)
      → is_own e ≡ false
      → get_uid_gid h (pos e.tgid) (pos e.pid) ≡ ok ids
      → DockerOpenBreakout.watch_open inspect h e
        ≡ DockerOpenBreakout.check_container inspect h e ids
  unfolding DockerOpenBreakout.watch_open
  breakout-ids h e ids o i = rw (o, DockerOpenBreakout.watch_open, i) refl

  -- Where a process is not among the tasks of its parent, the tracer of files opened outside of a
  -- container, which looks for the container there, reports no event for a call of open of the
  -- process, whatever the file and the answers of docker are.
  pub breakout_never :
      (h : Host) (memory : Memory) (t : Task) (filename rc : ℕ) (pad : Text)
      → IsMemory memory
      → IsTask t
      → IsForeign h t.parent t.pid
      → DockerOpenBreakout.watch_event inspect h (sent memory t filename rc pad) ≡ returned none
  breakout_never h memory t filename rc pad hm ht f =
      let e = event_of memory t filename rc in
      breakout-read h _ e pad (read_open_event-sent memory t filename rc pad hm ht)
      ∙ elim (Bool-cases (is_own e)) [
        | inl o ↦ breakout-own h e o
        | inr o ↦
            breakout-ids h e (0, 0) o (get_uid_gid-IsForeign h t.parent t.pid f)
            ∙ check_container_out inspect h e (0, 0)
                (inr (rw (get_container_id-IsForeign h t.parent t.pid f) refl))
      ]

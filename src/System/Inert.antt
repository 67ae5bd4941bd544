-- ===== src/System/Inert.antt =====
-- The tracers of tracer/bashreadline and tracer/dockeropenbreakout in the daemon: from what the kernel sends to
-- what the goroutine does with it.
use bpfd.Prelude.{
  ℕ, ◌≡◌, refl, ap, ◌≢◌, ◌⊎◌, inl, inr, true, none, some, List, [], ◌∷◌, ◌++◌, nat_beq, nat_beq_iff,
  Bool-cases, nat_eq, All, Result, Text, codes, text_eq,
}
use bpfd.Proc.{Host}
use bpfd.Proc.Foreign.{IsForeign}
use bpfd.Tracer.BashReadline
use bpfd.Tracer.DockerOpenBreakout
use bpfd.Bpf.{Task, IsTask, Memory, IsMemory}
use bpfd.Bpf.BashReadline.{ReadlineData, get_return_value, layout}
use bpfd.Bpf.BashReadline.Laws.{watch_event-line, watch_event-long_line}
use bpfd.Bpf.Open.Laws.{sent, breakout_never}
use bpfd.Api.{Server}
use bpfd.Api.Loop.{handle_event}
use bpfd.Api.Loop.Readline.{handle_event-watch_event}
use bpfd.Api.Loop.Watch.{watch_round}

-- A text without a NUL, or what stands before its first NUL.
abbrev pub NoNul : Text → Type 0
NoNul s = All (λ c. c ≢ 0) s

nul_cases : (b : Text) → NoNul b ⊎ ((s : Text) × (rest : Text) × (b ≡ s ++ 0 ∷ rest) × NoNul s)
nul_cases [] = inl tt
nul_cases (c ∷ b) = elim (Bool-cases (nat_beq c 0)) [
  | inl e ↦ inr ([], b, ap (λ x. x ∷ b) ((nat_beq_iff c 0).0 e), tt)
  | inr e ↦
      let ne : c ≢ 0 = λ q. (let z : nat_beq c 0 ≡ true = (nat_beq_iff c 0).1 q in cc) in
      elim (nul_cases b) [
        | inl h ↦ inl (ne, h)
        | inr (s, rest, q, h) ↦ inr (c ∷ s, rest, ap (λ x. c ∷ x) q, (ne, h))
      ]
]

-- Whatever bash reads, whatever the rules are, the tracer "bashreadline" has no effect on what the daemon
-- does, or ends it. A line with no NUL among its first 80 bytes makes the round of its goroutine panic, and
-- with it the daemon. Of any other line the tracer makes an event, which is dropped: no action runs, and
-- the server stays as it was.
pub readline_round :
    (h : Host) (s : Server) (memory : Memory) (t : Task) (line : ℕ) (d : ReadlineData)
    → IsMemory memory
    → IsTask t
    → get_return_value memory t line ≡ some d
    → (NoNul (memory 80 line)
        × (watch_round h (codes "bashreadline") (BashReadline.watch_event (layout d)) s ≡ none))
      ⊎ ((text : Text) × (rest : Text) × (memory 80 line ≡ text ++ 0 ∷ rest)
          × NoNul text
          × (watch_round h (codes "bashreadline") (BashReadline.watch_event (layout d)) s
              ≡ some (s, [])))
unfolding watch_round
readline_round h s memory t line d hm ht r = elim (nul_cases (memory 80 line)) [
  | inl long ↦ inl (long, rw (watch_event-long_line memory t line d hm ht r long) refl)
  | inr (text, rest, q, short) ↦
      let e = watch_event-line memory t line d text rest hm ht r q short in
      inr (text, rest, q, short, rw e (handle_event-watch_event h s (layout d) _ e))
]

-- A call of open has no effect through the tracer "dockeropenbreakout", where a process is not among the
-- tasks of its parent: whatever the file, the answers of docker and the rules, no action runs, and the
-- server stays as it was.
pub breakout_round :
    (inspect : Text → Result Text (List Text)) (h : Host) (s : Server) (memory : Memory) (t : Task)
    (filename rc : ℕ) (pad : Text)
    → IsMemory memory
    → IsTask t
    → IsForeign h t.parent t.pid
    → watch_round h
        (codes "dockeropenbreakout")
        (DockerOpenBreakout.watch_event inspect h (sent memory t filename rc pad))
        s
      ≡ some (s, [])
unfolding watch_round handle_event
breakout_round inspect h s memory t filename rc pad hm ht f =
    rw (breakout_never inspect h memory t filename rc pad hm ht f) refl

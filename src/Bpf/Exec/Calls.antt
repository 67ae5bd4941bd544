-- ===== src/Bpf/Exec/Calls.antt =====
-- A call of execve, from the program to the event that tracer/exec returns.
use bpfd.Prelude.{
  ℕ, zero, suc, ◌+◌, ◌*◌, ◌≡◌, refl, sym, ap, ◌∙◌, inl, inr, Bool, true, false, ◌&&◌, some, List,
  [], ◌∷◌, ◌++◌, map, arith, nat_beq, if◌then◌else◌, Bool-cases, nat_eq, take, replicate, is_empty,
  All, pos, int_beq, Text, text_eq,
}
use bpfd.Proc.{Host}
use bpfd.Proc.Foreign.{IsForeign, get_uid_gid-IsForeign}
use bpfd.Wire.{strict_string, to_int32}
use bpfd.Tracer.{returned}
use bpfd.Tracer.Exec.{
  ExecEvent, Args, args_of, argument, to_event, watch_exec, watch_event, read_exec_event,
}
use bpfd.Tracer.Exec.Laws.{run, words_of, IsOpenFor, watch_exec-call}
use bpfd.Bpf.{Task, IsTask, Memory, to_int}
use bpfd.Bpf.Exec.{of_task, pointer_at, with_arg, submit_args, execve, execve_return, layout}
use bpfd.Bpf.Exec.Laws.{event_of, read_exec_event-layout}
use bpfd.Bpf.Exec.Words.{words_at, IsArgv, ellipsis, words_of-execve}

-- the events of one process in a sequence
abbrev pub of_process : ℕ → List ExecEvent → List ExecEvent
of_process p [] = []
of_process p (e ∷ es) = let rest = of_process p es in if nat_beq e.pid p then e ∷ rest else rest

abbrev nothing : List Text
nothing = []

no_words : (a b : Bool) → (if a then (if b then [] else []) else []) ≡ nothing
no_words true true = refl
no_words true false = refl
no_words false b = refl

words_of-of_process : (p : ℕ) (es : List ExecEvent) → words_of p es ≡ words_of p (of_process p es)
words_of-of_process p [] = refl
words_of-of_process p (e ∷ es) = elim (Bool-cases (nat_beq e.pid p)) [
  | inl t ↦ rw (t, words_of-of_process p es) (rw t refl)
  | inr f ↦
      rw (f, words_of-of_process p es)
        (ap (λ l. l ++ words_of p (of_process p es))
          (no_words (int_beq e.kind (pos 0)) (is_empty (argument e))))
]

and_false : (b : Bool) → (b && false) ≡ false
and_false true = refl
and_false false = refl

of_process-IsOpenFor :
    (p : ℕ) (es : List ExecEvent) → All (IsOpenFor p) (of_process p es) → All (IsOpenFor p) es
of_process-IsOpenFor p [] h = tt
of_process-IsOpenFor p (e ∷ es) h = elim (Bool-cases (nat_beq e.pid p)) [
  | inl t ↦ let (a, b) = rw t at h in (a, of_process-IsOpenFor p es b)
  | inr f ↦ (rw f (and_false (int_beq e.kind (pos 1))), of_process-IsOpenFor p es (rw f at h))
]

submit_args-IsOpenFor :
    (p : ℕ) (memory : Memory) (behind : Text) (t : Task) (argv i n : ℕ)
    → All (IsOpenFor p) (map event_of (submit_args memory behind (of_task t 0) argv i n))
unfolding submit_args of_task with_arg
submit_args-IsOpenFor p memory behind t argv i zero = (refl, tt)
submit_args-IsOpenFor p memory behind t argv i (suc n) =
    elim (Bool-cases (nat_beq (pointer_at memory (argv + 8 * i)) 0)) [
      | inl z ↦ rw z tt
      | inr f ↦ rw f (refl, submit_args-IsOpenFor p memory behind t argv (suc i) n)
    ]

execve-IsOpenFor :
    (p : ℕ) (memory : Memory) (behind : Text) (t : Task) (filename argv : ℕ)
    → All (IsOpenFor p) (map event_of (execve memory behind t filename argv))
unfolding execve of_task with_arg
execve-IsOpenFor p memory behind t filename argv =
    (refl, submit_args-IsOpenFor p memory behind t argv 1 19)

-- the return of a call as the tracer reads it
abbrev pub returned_event : Task → ℕ → ExecEvent
returned_event t rc = record {
  pid = t.pid;
  tgid = t.parent;
  uid = t.uid;
  comm = t.comm;
  kind = pos 1;
  argv = replicate 128 0;
  return_value = to_int32 (to_int rc);
}

read-execve_return :
    (t : Task) (rc : ℕ)
    → IsTask t
    → read_exec_event (layout (execve_return t rc)) ≡ some (returned_event t rc, [])
unfolding execve_return of_task
read-execve_return t rc v = read_exec_event-layout (execve_return t rc) (record {
  pid = v.pid;
  tgid = v.parent;
  uid = v.uid;
  comm = v.comm;
  kind = omega arith;
  argv = refl;
  retval = omega arith;
})

watch_event-read :
    (h : Host) (buffer rest : Text) (e : ExecEvent) (args : Args)
    → read_exec_event buffer ≡ some (e, rest)
    → watch_event h buffer args ≡ watch_exec h e args
unfolding watch_event
watch_event-read h buffer rest e args r = rw (r, watch_event) refl

pub watch_event-execve :
    (h : Host) (memory : Memory) (behind : Text) (t u : Task) (filename argv rc : ℕ) (ps : List ℕ)
    (es : List ExecEvent) (args : Args) (c : Text)
    → IsTask u
    → u.pid ≡ t.pid
    → IsArgv memory argv 1 ps
    → of_process t.pid es ≡ map event_of (execve memory behind t filename argv)
    → strict_string u.comm ≡ some c
    → IsForeign h u.parent u.pid
    → ((watch_event h (layout (execve_return u rc)) (run h es args)).0
        ≡ returned (
            some (
              to_event (returned_event u rc) c 0 (
                args_of u.pid args
                ++ (words_at memory (filename ∷ take 19 ps) ++ ellipsis 19 ps)))))
      × (args_of u.pid (watch_event h (layout (execve_return u rc)) (run h es args)).1 ≡ [])
watch_event-execve h memory behind t u filename argv rc ps es args c v same a own s f =
    let mine : of_process u.pid es ≡ map event_of (execve memory behind t filename argv) =
      rw same own in
    let open_for =
      of_process-IsOpenFor u.pid es
        (rw mine (execve-IsOpenFor u.pid memory behind t filename argv)) in
    let words : words_of u.pid es ≡ words_at memory (filename ∷ take 19 ps) ++ ellipsis 19 ps =
      words_of-of_process u.pid es
      ∙ ap (words_of u.pid) mine
      ∙ rw same (words_of-execve memory behind t filename argv ps a) in
    rw
      (
        watch_event-read h (layout (execve_return u rc)) [] (returned_event u rc) (run h es args)
            (read-execve_return u rc v),
        sym words,
      )
      (watch_exec-call h es (returned_event u rc) args c (0, 0) open_for refl s
        (get_uid_gid-IsForeign h u.parent u.pid f))

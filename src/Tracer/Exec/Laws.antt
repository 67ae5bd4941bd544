-- ===== src/Tracer/Exec/Laws.antt =====
-- The arguments of a call, collected while the calls of other processes go on.
use bpfd.Prelude.{
  ℕ, ◌≡◌, refl, sym, ◌∙◌, inl, inr, true, false, ◌&&◌, none, some, List, [], ◌∷◌, ◌++◌,
  append_assoc, append-nil, nat_beq, nat_beq_iff, if◌then◌else◌, Bool-cases, Option-cases, nat_eq,
  is_empty, All, ok, Result-cases, pos, int_beq, Text, text_eq,
}
use bpfd.GoMap.{insert, delete}
use bpfd.GoMap.Laws.{lookup-insert, lookup-delete}
use bpfd.Proc.{Host}
use bpfd.Proc.Status.{get_uid_gid}
use bpfd.Wire.{strict_string}
use bpfd.Tracer.{returned}
use bpfd.Tracer.Exec.{
  ExecEvent, Args, args_of, argument, add_argument, to_event, finish_call, watch_exec,
}

-- what the tracer keeps behind a sequence of events
abbrev pub run : Host → List ExecEvent → Args → Args
run h [] args = args
run h (e ∷ es) args = run h es (watch_exec h e args).1

-- the words that one event adds to the call of a process
abbrev pub words_in : ℕ → ExecEvent → List Text
words_in p e =
    if int_beq e.kind (pos 0)
    then if is_empty (argument e) then [] else if nat_beq e.pid p then argument e ∷ [] else []
    else []

-- the words of a process in a sequence of events, in order
abbrev pub words_of : ℕ → List ExecEvent → List Text
words_of p [] = []
words_of p (e ∷ es) = words_in p e ++ words_of p es

-- not the return of a call of the process
abbrev pub IsOpenFor : ℕ → ExecEvent → Type 0
IsOpenFor p e = (int_beq e.kind (pos 1) && nat_beq e.pid p) ≡ false

args_of-insert :
    (p q : ℕ) (ws : List Text) (args : Args)
    → args_of q (insert p ws args) ≡ (if nat_beq p q then ws else args_of q args)
unfolding args_of
args_of-insert p q ws args = elim (Bool-cases (nat_beq p q)) [
  | inl t ↦ rw (lookup-insert p q ws args, args_of, t) refl
  | inr f ↦ rw (lookup-insert p q ws args, args_of, f) refl
]

args_of-delete :
    (p q : ℕ) (args : Args)
    → args_of q (delete p args) ≡ (if nat_beq p q then [] else args_of q args)
unfolding args_of
args_of-delete p q args = elim (Bool-cases (nat_beq p q)) [
  | inl t ↦ rw (lookup-delete p q args, args_of, t) refl
  | inr f ↦ rw (lookup-delete p q args, args_of, f) refl
]

args_of-new_word :
    (p : ℕ) (e : ExecEvent) (args : Args)
    → args_of p (insert e.pid (args_of e.pid args ++ argument e ∷ []) args)
      ≡ args_of p args ++ (if nat_beq e.pid p then argument e ∷ [] else [])
args_of-new_word p e args = elim (Bool-cases (nat_beq e.pid p)) [
  | inl t ↦
      rw
        (
          args_of-insert e.pid p (args_of e.pid args ++ argument e ∷ []) args,
          t,
          (nat_beq_iff e.pid p).0 t,
        )
        refl
  | inr f ↦
      rw (args_of-insert e.pid p (args_of e.pid args ++ argument e ∷ []) args, f)
        (sym (append-nil (args_of p args)))
]

args_of-add_argument :
    (p : ℕ) (e : ExecEvent) (args : Args)
    → int_beq e.kind (pos 0) ≡ true
    → args_of p (add_argument e args) ≡ args_of p args ++ words_in p e
unfolding add_argument
args_of-add_argument p e args k = elim (Bool-cases (is_empty (argument e))) [
  | inl t ↦ rw (t, add_argument, k) (sym (append-nil (args_of p args)))
  | inr f ↦ rw (f, add_argument, k) (args_of-new_word p e args)
]

args_of-finish_call :
    (h : Host) (p : ℕ) (e : ExecEvent) (args : Args)
    → nat_beq e.pid p ≡ false
    → args_of p (finish_call h e args).1 ≡ args_of p args
unfolding finish_call
args_of-finish_call h p e args ne = elim (Option-cases (strict_string e.comm)) [
  | inl n ↦ rw (n, finish_call) refl
  | inr (c, s) ↦ elim (Result-cases (get_uid_gid h (pos e.tgid) (pos e.pid))) [
    | inl (ids, i) ↦ rw (s, finish_call, i, args_of-delete e.pid p args, ne) refl
    | inr (x, i) ↦ rw (s, finish_call, i) refl
  ]
]

watch_exec-argument :
    (h : Host) (e : ExecEvent) (args : Args)
    → int_beq e.kind (pos 0) ≡ true
    → watch_exec h e args ≡ (returned none, add_argument e args)
unfolding watch_exec
watch_exec-argument h e args k = rw (k, watch_exec) refl

watch_exec-return :
    (h : Host) (e : ExecEvent) (args : Args)
    → int_beq e.kind (pos 0) ≡ false
    → int_beq e.kind (pos 1) ≡ true
    → watch_exec h e args ≡ finish_call h e args
unfolding watch_exec
watch_exec-return h e args k k' = rw (k, watch_exec, k') refl

watch_exec-other :
    (h : Host) (e : ExecEvent) (args : Args)
    → int_beq e.kind (pos 0) ≡ false
    → int_beq e.kind (pos 1) ≡ false
    → watch_exec h e args ≡ (returned none, args)
unfolding watch_exec
watch_exec-other h e args k k' = rw (k, watch_exec, k') refl

args_of-watch_exec :
    (h : Host) (p : ℕ) (e : ExecEvent) (args : Args)
    → IsOpenFor p e
    → args_of p (watch_exec h e args).1 ≡ args_of p args ++ words_in p e
args_of-watch_exec h p e args o = elim (Bool-cases (int_beq e.kind (pos 0))) [
  | inl t ↦ rw (watch_exec-argument h e args t) (args_of-add_argument p e args t)
  | inr f ↦ elim (Bool-cases (int_beq e.kind (pos 1))) [
    | inl t ↦
        rw (watch_exec-return h e args f t, f, args_of-finish_call h p e args (rw t at o))
          (sym (append-nil (args_of p args)))
    | inr g ↦ rw (watch_exec-other h e args f g, f) (sym (append-nil (args_of p args)))
  ]
]

args_of-run :
    (h : Host) (p : ℕ) (es : List ExecEvent) (args : Args)
    → All (IsOpenFor p) es
    → args_of p (run h es args) ≡ args_of p args ++ words_of p es
args_of-run h p [] args o = sym (append-nil (args_of p args))
args_of-run h p (e ∷ es) args (o, os) =
    rw (args_of-run h p es (watch_exec h e args).1 os, args_of-watch_exec h p e args o)
      (append_assoc (args_of p args) (words_in p e) (words_of p es))

finish_call-ok :
    (h : Host) (e : ExecEvent) (args : Args) (c : Text) (ids : ℕ × ℕ)
    → strict_string e.comm ≡ some c
    → get_uid_gid h (pos e.tgid) (pos e.pid) ≡ ok ids
    → finish_call h e args
      ≡ (returned (some (to_event e c ids.1 (args_of e.pid args))), delete e.pid args)
unfolding finish_call
finish_call-ok h e args c ids s i = rw (s, finish_call, i) refl

forgotten : (p : ℕ) (args : Args) → args_of p (delete p args) ≡ []
forgotten p args = args_of-delete p p args ∙ rw ((nat_beq_iff p p).1 refl) refl

-- While a process has not returned from its call, whatever the events of other processes are, its
-- words gather in order; the return then gives one event whose "argv" is these words joined by blanks,
-- with the UID that the kernel sent and the GID of the process, and forgets them. The hypotheses: no
-- words are kept at first, the name of the command has a NUL, and the IDs are found.
pub watch_exec-call :
    (h : Host) (es : List ExecEvent) (e : ExecEvent) (args : Args) (c : Text) (ids : ℕ × ℕ)
    → All (IsOpenFor e.pid) es
    → e.kind ≡ pos 1
    → strict_string e.comm ≡ some c
    → get_uid_gid h (pos e.tgid) (pos e.pid) ≡ ok ids
    → ((watch_exec h e (run h es args)).0
        ≡ returned (some (to_event e c ids.1 (args_of e.pid args ++ words_of e.pid es))))
      × (args_of e.pid (watch_exec h e (run h es args)).1 ≡ [])
watch_exec-call h es e args c ids os k s i =
    let kept = args_of-run h e.pid es args os in
    rw
      (
        watch_exec-return h e (run h es args) (rw k refl) (rw k refl),
        finish_call-ok h e (run h es args) c ids s i,
        kept,
      )
      (refl, forgotten e.pid (run h es args))

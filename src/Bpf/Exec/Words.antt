-- ===== src/Bpf/Exec/Words.antt =====
-- The words that tracer/exec gathers of the events of one call of execve.
use bpfd.Prelude.{
  ℕ, zero, suc, ◌+◌, ◌*◌, ◌≡◌, refl, sym, ap, ◌∙◌, ◌≢◌, true, false, List, [], ◌∷◌, ◌++◌, map,
  append_assoc, arith, leb, nat_beq, nat_beq_iff, if◌then◌else◌, nat_eq, length, take, is_empty,
  Text, codes, text_eq,
}
use bpfd.Strings.{trim_space}
use bpfd.Wire.{bounded_string}
use bpfd.Wire.Laws.{bounded_string_lem}
use bpfd.Tracer.Exec.{argument}
use bpfd.Tracer.Exec.Laws.{words_in, words_of}
use bpfd.Bpf.{Task, Memory}
use bpfd.Bpf.Exec.{ExecData, of_task, pointer_at, with_arg, submit_args, execve}
use bpfd.Bpf.Exec.Laws.{event_of}

-- The word that the tracer makes of a string: what fits into 128 bytes, with blanks at the ends trimmed.
abbrev pub word_at : Memory → ℕ → Text
word_at memory ptr = trim_space (bounded_string 128 (memory 128 ptr))

abbrev non_empty : Text → List Text
non_empty w = if is_empty w then [] else w ∷ []

-- the words of some strings, without the empty ones
abbrev pub words_at : Memory → List ℕ → List Text
words_at memory [] = []
words_at memory (p ∷ ps) = non_empty (word_at memory p) ++ words_at memory ps

-- The array of pointers has these from the place `i` on, and then a null pointer.
abbrev pub IsArgv : Memory → ℕ → ℕ → List ℕ → Type 0
IsArgv memory argv i [] = pointer_at memory (argv + 8 * i) ≡ 0
IsArgv memory argv i (p ∷ ps) =
    (pointer_at memory (argv + 8 * i) ≡ p) × (p ≢ 0) × IsArgv memory argv (suc i) ps

-- "..." stands behind the words when the loop has made all of its rounds.
abbrev pub ellipsis : ℕ → List ℕ → List Text
ellipsis n ps = if leb n (length ps) then codes "..." ∷ [] else []

not_zero : (p : ℕ) → p ≢ 0 → nat_beq p 0 ≡ false
not_zero p h = ground arith

same_pid : (p : ℕ) → nat_beq p p ≡ true
same_pid p = (nat_beq_iff p p).1 refl

words_in-with_arg :
    (memory : Memory) (t : Task) (ptr : ℕ)
    → words_in t.pid (event_of (with_arg memory (of_task t 0) ptr)) ≡ non_empty (word_at memory ptr)
unfolding with_arg of_task argument
words_in-with_arg memory t ptr = rw (same_pid t.pid) refl

dots-trimmed :
    (behind : Text) → trim_space (bounded_string 128 (codes "..." ++ 0 ∷ behind)) ≡ codes "..."
unfolding trim_space
dots-trimmed behind =
    rw
      (bounded_string_lem 128 (codes "...") behind (
        (λ q. absurd (omega arith)),
        ((λ q. absurd (omega arith)), ((λ q. absurd (omega arith)), tt)),
      ))
      refl

words_in-dots :
    (t : Task) (behind : Text)
    → words_in t.pid (event_of (record (of_task t 0) { argv = codes "..." ++ 0 ∷ behind }))
      ≡ codes "..." ∷ []
unfolding of_task argument
words_in-dots t behind = rw (same_pid t.pid, dots-trimmed behind) refl

submit_args-null :
    (memory : Memory) (behind : Text) (d : ExecData) (argv i n : ℕ)
    → pointer_at memory (argv + 8 * i) ≡ 0
    → submit_args memory behind d argv i (suc n) ≡ []
unfolding submit_args
submit_args-null memory behind d argv i n h = rw (h, submit_args) refl

submit_args-more :
    (memory : Memory) (behind : Text) (d : ExecData) (argv i n p : ℕ)
    → pointer_at memory (argv + 8 * i) ≡ p
    → p ≢ 0
    → submit_args memory behind d argv i (suc n)
      ≡ with_arg memory d p ∷ submit_args memory behind d argv (suc i) n
unfolding submit_args
submit_args-more memory behind d argv i n p h nz = rw (h, submit_args, not_zero p nz) refl

leb-suc : (a b : ℕ) → leb (suc a) (suc b) ≡ leb a b
leb-suc a b = ground arith

leb-zero : (b : ℕ) → leb 0 b ≡ true
leb-zero b = ground arith

leb-none : (a : ℕ) → leb (suc a) 0 ≡ false
leb-none a = ground arith

words_of-submit_args :
    (memory : Memory) (behind : Text) (t : Task) (argv i n : ℕ) (ps : List ℕ)
    → IsArgv memory argv i ps
    → words_of t.pid (map event_of (submit_args memory behind (of_task t 0) argv i n))
      ≡ words_at memory (take n ps) ++ ellipsis n ps
unfolding submit_args
words_of-submit_args memory behind t argv i zero ps h =
    rw (words_in-dots t behind, leb-zero (length ps)) refl
words_of-submit_args memory behind t argv i (suc n) [] h =
    ap (λ l. words_of t.pid (map event_of l))
      (submit_args-null memory behind (of_task t 0) argv i n h)
    ∙ rw (leb-none n) refl
words_of-submit_args memory behind t argv i (suc n) (p ∷ ps) (q, nz, h) =
    ap (λ l. words_of t.pid (map event_of l))
      (submit_args-more memory behind (of_task t 0) argv i n p q nz)
    ∙ rw
        (
          words_in-with_arg memory t p,
          words_of-submit_args memory behind t argv (suc i) n ps h,
          leb-suc n (length ps),
        )
        (sym (
          append_assoc (non_empty (word_at memory p)) (words_at memory (take n ps))
            (ellipsis n ps)))

pub words_of-execve :
    (memory : Memory) (behind : Text) (t : Task) (filename argv : ℕ) (ps : List ℕ)
    → IsArgv memory argv 1 ps
    → words_of t.pid (map event_of (execve memory behind t filename argv))
      ≡ words_at memory (filename ∷ take 19 ps) ++ ellipsis 19 ps
unfolding execve
words_of-execve memory behind t filename argv ps h =
    rw (words_in-with_arg memory t filename, words_of-submit_args memory behind t argv 1 19 ps h)
      (sym (
        append_assoc (non_empty (word_at memory filename)) (words_at memory (take 19 ps))
          (ellipsis 19 ps)))

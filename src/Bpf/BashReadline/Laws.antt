-- ===== src/Bpf/BashReadline/Laws.antt =====
-- A line that bash read, from the kernel to the tracer of tracer/bashreadline.
use bpfd.Prelude.{
  ℕ, ◌^◌, ◌<◌, ◌≡◌, refl, ap, ◌∙◌, ◌≢◌, inl, inr, none, some, [], ◌∷◌, ◌++◌, arith, nat_beq,
  Bool-cases, nat_eq, length, All, ℤ, pos, Text, text_eq,
}
use bpfd.Wire.{◌>>=◌, pure, read_bytes, read_int32, strict_string}
use bpfd.Wire.Laws.{
  le_bytes, bind_lem, read_bytes_lem, read_int32_lem, little_endian-four, index_nul-none,
  strict_string_lem,
}
use bpfd.Tracer.{returned, panicked}
use bpfd.Tracer.BashReadline.{ReadlineEvent, read_readline_event, to_event, watch_event}
use bpfd.Bpf.{Task, IsTask, Memory, IsMemory}
use bpfd.Bpf.BashReadline.{ReadlineData, get_return_value, layout}

-- what the tracer reads of the data of a line
abbrev pub event_of : Memory → Task → ℕ → ReadlineEvent
event_of memory t line = record {
  pid = t.pid;
  tgid = t.parent;
  uid = t.uid;
  gid = t.gid;
  comm = memory 80 line;
  return_value = pos 0;
}

abbrev pub data_of : Memory → Task → ℕ → ReadlineData
data_of memory t line = record {
  pid = t.pid;
  tgid = t.parent;
  uid = t.uid;
  gid = t.gid;
  comm = memory 80 line;
  ret = 0;
}

read_readline_event_lem :
    (p t u g : ℕ) (comm : Text)
    → p < 2 ^ 32
    → t < 2 ^ 32
    → u < 2 ^ 32
    → g < 2 ^ 32
    → length comm ≡ 80
    → read_readline_event
        (le_bytes 4 p ++ le_bytes 4 t ++ le_bytes 4 u ++ le_bytes 4 g ++ comm ++ le_bytes 4 0)
      ≡ some (record { pid = p; tgid = t; uid = u; gid = g; comm = comm; return_value = pos 0 }, [])
unfolding read_readline_event
read_readline_event_lem p t u g comm hp ht hu hg hc =
    let done : ℤ → Text → ReadlineEvent =
      λ r c. record { pid = p; tgid = t; uid = u; gid = g; comm = c; return_value = r } in
    rw
      (
        little_endian-four p hp,
        little_endian-four t ht,
        little_endian-four u hu,
        little_endian-four g hg,
      )
      (bind_lem (read_bytes 80) (λ c. read_int32 >>= (λ r. pure (done r c))) (comm ++ le_bytes 4 0)
          (le_bytes 4 0) comm (read_bytes_lem 80 comm (le_bytes 4 0) hc)
        ∙ bind_lem read_int32 (λ r. pure (done r comm)) (le_bytes 4 0) [] (pos 0)
            (read_int32_lem 0 [] (omega arith)))

read_readline_event-layout :
    (memory : Memory) (t : Task) (line : ℕ)
    → IsMemory memory
    → IsTask t
    → read_readline_event (layout (data_of memory t line)) ≡ some (event_of memory t line, [])
unfolding layout
read_readline_event-layout memory t line hm ht =
    read_readline_event_lem t.pid t.parent t.uid t.gid (memory 80 line) ht.pid ht.parent ht.uid
      ht.gid (hm.size 80 line)

watch_event-read :
    (buffer rest : Text) (e : ReadlineEvent) (s : Text)
    → read_readline_event buffer ≡ some (e, rest)
    → strict_string e.comm ≡ some s
    → watch_event buffer ≡ returned (some (to_event e s))
unfolding watch_event
watch_event-read buffer rest e s r c = rw (r, watch_event, c) refl

watch_event-panics :
    (buffer rest : Text) (e : ReadlineEvent)
    → read_readline_event buffer ≡ some (e, rest)
    → strict_string e.comm ≡ none
    → watch_event buffer ≡ panicked
unfolding watch_event
watch_event-panics buffer rest e r c = rw (r, watch_event, c) refl

strict_string-none : (b : Text) → All (λ c. c ≢ 0) b → strict_string b ≡ none
unfolding strict_string
strict_string-none b h = rw (index_nul-none b h, strict_string) refl

get_return_value-data :
    (memory : Memory) (t : Task) (line : ℕ) (d : ReadlineData)
    → get_return_value memory t line ≡ some d
    → d ≡ data_of memory t line
unfolding get_return_value
get_return_value-data memory t line d h = elim (Bool-cases (nat_beq line 0)) [
  | inl b ↦ absurd (let z : none ≡ some d = rw b at h in cc)
  | inr b ↦ let z : some (data_of memory t line) ≡ some d = rw b at h in cc
]

-- A line of bash that ends within 80 bytes reaches the tracer as its command, with blanks at the ends
-- trimmed, and with the IDs of the shell, the thread group being that of its parent.
pub watch_event-line :
    (memory : Memory) (t : Task) (line : ℕ) (d : ReadlineData) (s rest : Text)
    → IsMemory memory
    → IsTask t
    → get_return_value memory t line ≡ some d
    → memory 80 line ≡ s ++ 0 ∷ rest
    → All (λ c. c ≢ 0) s
    → watch_event (layout d) ≡ returned (some (to_event (event_of memory t line) s))
watch_event-line memory t line d s rest hm ht h q nz =
    rw (get_return_value-data memory t line d h) (
      watch_event-read (layout (data_of memory t line)) [] (event_of memory t line) s
        (read_readline_event-layout memory t line hm ht)
        (ap strict_string q ∙ strict_string_lem s rest nz))

-- A line of bash with no NUL in its first 80 bytes makes the tracer panic: these are the bytes that
-- the program reads and submits, and the tracer cuts its buffer at the index -1.
pub watch_event-long_line :
    (memory : Memory) (t : Task) (line : ℕ) (d : ReadlineData)
    → IsMemory memory
    → IsTask t
    → get_return_value memory t line ≡ some d
    → All (λ c. c ≢ 0) (memory 80 line)
    → watch_event (layout d) ≡ panicked
watch_event-long_line memory t line d hm ht h nz = rw (get_return_value-data memory t line d h) (
    watch_event-panics (layout (data_of memory t line)) [] (event_of memory t line)
      (read_readline_event-layout memory t line hm ht) (strict_string-none (memory 80 line) nz))

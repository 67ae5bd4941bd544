-- ===== src/Tracer/Open/Laws.antt =====
-- Which files the tracer reports, and what it makes of the bytes that the kernel sends.
use bpfd.Prelude.{
  ℕ, ◌^◌, ◌<◌, ◌≡◌, refl, ap, ◌↔◌, ◌⊎◌, inl, inr, Bool, true, false, ◌||◌, none, some, ◌++◌,
  Bool-cases, ◌==◌, nat_eq, length, ok, err, Result-cases, pos, Text, codes, text_beq_iff, text_eq,
}
use bpfd.Grpc.{Event}
use bpfd.Strings.{has_prefix}
use bpfd.Strings.Search.{has_prefix-append, has_prefix_sound}
use bpfd.Strconv.{NumError}
use bpfd.Proc.{Host}
use bpfd.Proc.Status.{get_uid_gid}
use bpfd.Wire.{to_int32}
use bpfd.Wire.Laws.{le_bytes, two_arrays, little_endian-four}
use bpfd.Tracer.{returned, ids_failed}
use bpfd.Tracer.Open.{
  OpenEvent, filename_of, command_of, proc_dir, is_own, to_event, watch_open, read_open_event,
}

or_sound : (a b : Bool) → (a || b) ≡ true → (a ≡ true) ⊎ (b ≡ true)
or_sound true b h = inl refl
or_sound false b h = inr h

or_true : (b : Bool) → (b || true) ≡ true
or_true true = refl
or_true false = refl

has_prefix_complete : (s p rest : Text) → s ≡ p ++ rest → has_prefix s p ≡ true
has_prefix_complete s p rest h = rw h (has_prefix-append p rest)

-- The guard ignores the tracer's own command and every file whose name begins with "/proc/" and the
-- digits of one of the two IDs of the process that opens it.
pub is_own_iff :
    (e : OpenEvent)
    → (is_own e ≡ true) ↔ (
        ((rest : Text) × (filename_of e ≡ proc_dir e.pid ++ rest))
        ⊎ (((rest : Text) × (filename_of e ≡ proc_dir e.tgid ++ rest))
            ⊎ (command_of e ≡ codes "bpfd")))
unfolding is_own
is_own_iff e =
    let in_pid = has_prefix (filename_of e) (proc_dir e.pid) in
    let in_tgid = has_prefix (filename_of e) (proc_dir e.tgid) in
    (
      λ t. elim (or_sound (in_pid || in_tgid) (command_of e == codes "bpfd") t) [
        | inl r ↦ elim (or_sound in_pid in_tgid r) [
          | inl p ↦ inl (has_prefix_sound (filename_of e) (proc_dir e.pid) p)
          | inr p ↦ inr (inl (has_prefix_sound (filename_of e) (proc_dir e.tgid) p))
        ]
        | inr c ↦ inr (inr ((text_beq_iff (command_of e) (codes "bpfd")).0 c))
      ],
      λ c. elim c [
        | inl (rest, q) ↦
            rw (has_prefix_complete (filename_of e) (proc_dir e.pid) rest q, is_own) refl
        | inr (inl (rest, q)) ↦
            rw (has_prefix_complete (filename_of e) (proc_dir e.tgid) rest q, is_own)
              (ap (λ b. b || (command_of e == codes "bpfd")) (or_true in_pid))
        | inr (inr q) ↦
            rw ((text_beq_iff (command_of e) (codes "bpfd")).1 q, is_own)
              (or_true (in_pid || in_tgid))
      ],
    )

pub watch_open-own : (h : Host) (e : OpenEvent) → is_own e ≡ true → watch_open h e ≡ returned none
unfolding watch_open
watch_open-own h e o = rw (o, watch_open) refl

pub watch_open-ids :
    (h : Host) (e : OpenEvent) {ids : ℕ × ℕ}
    → is_own e ≡ false
    → get_uid_gid h (pos e.tgid) (pos e.pid) ≡ ok ids
    → watch_open h e ≡ returned (some (to_event e ids))
unfolding watch_open
watch_open-ids h e o i = rw (o, watch_open, i) refl

watch_open-failed :
    (h : Host) (e : OpenEvent) {x : NumError}
    → is_own e ≡ false
    → get_uid_gid h (pos e.tgid) (pos e.pid) ≡ err x
    → watch_open h e ≡ ids_failed e.pid
unfolding watch_open
watch_open-failed h e o i = rw (o, watch_open, i) refl

-- The event is reported exactly if the guard lets it through and the IDs are found, and carries them.
pub watch_open_iff :
    (h : Host) (e : OpenEvent) (event : Event)
    → (watch_open h e ≡ returned (some event)) ↔ (
        (is_own e ≡ false)
        × ((ids : ℕ × ℕ) × (get_uid_gid h (pos e.tgid) (pos e.pid) ≡ ok ids)
            × (event ≡ to_event e ids)))
watch_open_iff h e event = (
  λ r. elim (Bool-cases (is_own e)) [
    | inl o ↦ absurd (let q = watch_open-own h e o in cc)
    | inr o ↦ (
      o,
      elim (Result-cases (get_uid_gid h (pos e.tgid) (pos e.pid))) [
        | inl (ids, i) ↦ (ids, i, let q = watch_open-ids h e o i in cc)
        | inr (x, i) ↦ absurd (let q = watch_open-failed h e o i in cc)
      ],
    )
  ],
  λ (o, (ids, i, q)). rw q (watch_open-ids h e o i),
)

-- Of the buffer that the kernel sends, the fields of the C struct one behind the other, the tracer
-- reads back the two IDs, the signed return value and the arrays of the two C strings.
pub read_open_event_lem :
    (p t r : ℕ) (comm file rest : Text)
    → p < 2 ^ 32
    → t < 2 ^ 32
    → r < 2 ^ 32
    → length comm ≡ 16
    → length file ≡ 255
    → read_open_event (le_bytes 4 p ++ le_bytes 4 t ++ le_bytes 4 r ++ comm ++ file ++ rest)
      ≡ some (
        record { pid = p; tgid = t; return_value = to_int32 r; comm = comm; filename = file },
        rest,
      )
unfolding read_open_event
read_open_event_lem p t r comm file rest hp ht hr lc lf =
    rw (little_endian-four p hp, little_endian-four t ht, little_endian-four r hr)
      (two_arrays 16 255
        (λ c f. record { pid = p; tgid = t; return_value = to_int32 r; comm = c; filename = f })
        comm file rest lc lf)

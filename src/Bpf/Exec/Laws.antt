-- ===== src/Bpf/Exec/Laws.antt =====
-- What tracer/exec reads of the events that its program submits.
use bpfd.Prelude.{ℕ, ◌^◌, ◌<◌, ◌≡◌, ◌∙◌, some, [], ◌++◌, nat_eq, length, ℤ, Text, text_eq}
use bpfd.Wire.{Reader, ◌>>=◌, pure, read_bytes, read_int32, to_int32}
use bpfd.Wire.Laws.{le_bytes, bind_lem, read_bytes_lem, read_int32_lem, little_endian-four}
use bpfd.Tracer.Exec.{ExecEvent, read_exec_event}
use bpfd.Bpf.Exec.{ExecData, layout}

-- The fields have the widths of the C struct.
pub record IsData (d : ExecData) : Type 0 where
  pub pid : d.pid < 2 ^ 32
  pub tgid : d.tgid < 2 ^ 32
  pub uid : d.uid < 2 ^ 32
  pub comm : length d.comm ≡ 16
  pub kind : d.kind < 2 ^ 32
  pub argv : length d.argv ≡ 128
  pub retval : d.retval < 2 ^ 32

abbrev pub event_of : ExecData → ExecEvent
event_of d = record {
  pid = d.pid;
  tgid = d.tgid;
  uid = d.uid;
  comm = d.comm;
  kind = to_int32 d.kind;
  argv = d.argv;
  return_value = to_int32 d.retval;
}

read_exec_event_lem :
    (p t u k r : ℕ) (comm argv : Text)
    → p < 2 ^ 32
    → t < 2 ^ 32
    → u < 2 ^ 32
    → k < 2 ^ 32
    → r < 2 ^ 32
    → length comm ≡ 16
    → length argv ≡ 128
    → read_exec_event (
        le_bytes 4 p
        ++ le_bytes 4 t
        ++ le_bytes 4 u
        ++ (comm ++ (le_bytes 4 k ++ (argv ++ le_bytes 4 r))))
      ≡ some (
        record {
          pid = p;
          tgid = t;
          uid = u;
          comm = comm;
          kind = to_int32 k;
          argv = argv;
          return_value = to_int32 r;
        },
        [],
      )
unfolding read_exec_event
read_exec_event_lem p t u k r comm argv hp ht hu hk hr hc ha =
    let done : Text → ℤ → Text → ℤ → ExecEvent = λ c k a r. record {
      pid = p;
      tgid = t;
      uid = u;
      comm = c;
      kind = k;
      argv = a;
      return_value = r;
    } in
    let last : Text → ℤ → Text → Reader ExecEvent =
      λ c k a. read_int32 >>= (λ r. pure (done c k a r)) in
    let arg : Text → ℤ → Reader ExecEvent = λ c k. read_bytes 128 >>= (λ a. last c k a) in
    let kind : Text → Reader ExecEvent = λ c. read_int32 >>= (λ k. arg c k) in
    rw (little_endian-four p hp, little_endian-four t ht, little_endian-four u hu)
      (bind_lem (read_bytes 16) kind (comm ++ (le_bytes 4 k ++ (argv ++ le_bytes 4 r)))
          (le_bytes 4 k ++ (argv ++ le_bytes 4 r)) comm (read_bytes_lem 16 comm _ hc)
        ∙ bind_lem read_int32 (λ k. arg comm k) (le_bytes 4 k ++ (argv ++ le_bytes 4 r))
            (argv ++ le_bytes 4 r) (to_int32 k) (read_int32_lem k (argv ++ le_bytes 4 r) hk)
        ∙ bind_lem (read_bytes 128) (λ a. last comm (to_int32 k) a) (argv ++ le_bytes 4 r)
            (le_bytes 4 r) argv (read_bytes_lem 128 argv (le_bytes 4 r) ha)
        ∙ bind_lem read_int32 (λ r. pure (done comm (to_int32 k) argv r)) (le_bytes 4 r) []
            (to_int32 r) (read_int32_lem r [] hr))

-- The tracer reads back every field of what the program submits, the type and the return value as signed
-- numbers, and reads the buffer to its end.
pub read_exec_event-layout :
    (d : ExecData) → IsData d → read_exec_event (layout d) ≡ some (event_of d, [])
unfolding layout
read_exec_event-layout d v =
    read_exec_event_lem d.pid d.tgid d.uid d.kind d.retval d.comm d.argv v.pid v.tgid v.uid v.kind
      v.retval v.comm v.argv

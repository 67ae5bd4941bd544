-- ===== src/Tracer/Exec.antt =====
-- tracer/exec/exec.go: `execEvent` and `WatchEvent`, which keeps the arguments that it has seen of each
-- process until the call returns.
pub mod Laws
use bpfd.Prelude.{
  ℕ, not, none, some, List, [], ◌∷◌, ◌++◌, if◌then◌else◌, Eq, nat_eq, is_empty, ok, err, ℤ, pos,
  int_beq, Text, codes, text_eq,
}
use bpfd.Grpc.{Event}
use bpfd.GoMap.{lookup, insert, delete}
use bpfd.Strings.{trim_space, join, format_int}
use bpfd.Proc.{Host}
use bpfd.Proc.Status.{get_uid_gid}
use bpfd.Wire.{
  Reader, ◌>>=◌, pure, read_uint, read_int32, read_bytes, bounded_string, strict_string,
}
use bpfd.Tracer.{WatchResult, returned, decode_failed, ids_failed, panicked}

pub record ExecEvent : Type 0 where
  pub pid : ℕ
  pub tgid : ℕ
  pub uid : ℕ
  pub comm : Text
  pub kind : ℤ
  pub argv : Text
  pub return_value : ℤ

-- `binary.Read` into an `execEvent`
unfoldable pub read_exec_event : Reader ExecEvent
unfolding read_uint read_int32 read_bytes
read_exec_event = do
  p ← read_uint 4
  t ← read_uint 4
  u ← read_uint 4
  c ← read_bytes 16
  k ← read_int32
  a ← read_bytes 128
  r ← read_int32
  pure (record { pid = p; tgid = t; uid = u; comm = c; kind = k; argv = a; return_value = r })

-- `p.argv`
abbrev pub Args : Type 0
Args = List (ℕ × List Text)

-- `p.argv[pid]`: a missing key gives no arguments
unfoldable pub args_of : ℕ → Args → List Text
args_of p args = elim (lookup p args) [ none ↦ [] | some words ↦ words ]

unfoldable pub argument : ExecEvent → Text
unfolding bounded_string trim_space
argument e = trim_space (bounded_string 128 e.argv)

-- the branch of an argument
unfoldable pub add_argument : ExecEvent → Args → Args
unfolding argument args_of
add_argument e args =
    if is_empty (argument e)
    then args
    else insert e.pid (args_of e.pid args ++ argument e ∷ []) args

unfoldable pub to_event : ExecEvent → Text → ℕ → List Text → Event
unfolding join trim_space format_int
to_event e c g words = record {
  pid = e.pid;
  tgid = e.tgid;
  uid = e.uid;
  gid = g;
  command = trim_space c;
  return_value = e.return_value;
  event_data =
      some ((codes "argv", join words (codes " ")) ∷ (codes "type", format_int e.kind) ∷ []);
  container_id = [];
  container_runtime = [];
  tracer = [];
}

-- the branch of a return
unfoldable pub finish_call : Host → ExecEvent → Args → WatchResult × Args
unfolding strict_string get_uid_gid to_event args_of
finish_call h e args = elim (strict_string e.comm) [
  | none ↦ (panicked, args)
  | some c ↦ elim (get_uid_gid h (pos e.tgid) (pos e.pid)) [
    | err _ ↦ (ids_failed e.pid, args)
    | ok (_, g) ↦ (returned (some (to_event e c g (args_of e.pid args))), delete e.pid args)
  ]
]

-- `WatchEvent` behind the decoding
unfoldable pub watch_exec : Host → ExecEvent → Args → WatchResult × Args
unfolding add_argument finish_call
watch_exec h e args =
    if int_beq e.kind (pos 0)
    then (returned none, add_argument e args)
    else if not (int_beq e.kind (pos 1))
    then (returned none, args)
    else finish_call h e args

-- `WatchEvent` of this tracer on a buffer
unfoldable pub watch_event : Host → Text → Args → WatchResult × Args
unfolding read_exec_event watch_exec
watch_event h buffer args = elim (read_exec_event buffer) [
  | none ↦ (decode_failed, args)
  | some (e, _) ↦ watch_exec h e args
]

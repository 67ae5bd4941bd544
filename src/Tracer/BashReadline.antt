-- ===== src/Tracer/BashReadline.antt =====
-- tracer/bashreadline/bashreadline.go: `readlineEvent` and `WatchEvent`.
use bpfd.Prelude.{ℕ, none, some, [], nat_eq, ℤ, Text, text_eq}
use bpfd.Grpc.{Event}
use bpfd.Strings.{trim_space}
use bpfd.Wire.{Reader, ◌>>=◌, pure, read_uint, read_int32, read_bytes, strict_string}
use bpfd.Tracer.{WatchResult, returned, decode_failed, panicked}

pub record ReadlineEvent : Type 0 where
  pub pid : ℕ
  pub tgid : ℕ
  pub uid : ℕ
  pub gid : ℕ
  pub comm : Text
  pub return_value : ℤ

-- `binary.Read` into a `readlineEvent`
unfoldable pub read_readline_event : Reader ReadlineEvent
unfolding read_uint read_int32 read_bytes
read_readline_event = do
  p ← read_uint 4
  t ← read_uint 4
  u ← read_uint 4
  g ← read_uint 4
  c ← read_bytes 80
  r ← read_int32
  pure (record { pid = p; tgid = t; uid = u; gid = g; comm = c; return_value = r })

unfoldable pub to_event : ReadlineEvent → Text → Event
unfolding trim_space
to_event e c = record {
  pid = e.pid;
  tgid = e.tgid;
  uid = e.uid;
  gid = e.gid;
  command = trim_space c;
  return_value = e.return_value;
  event_data = none;
  container_id = [];
  container_runtime = [];
  tracer = [];
}

-- `WatchEvent` of this tracer on a buffer
unfoldable pub watch_event : Text → WatchResult
unfolding read_readline_event strict_string to_event
watch_event buffer = elim (read_readline_event buffer) [
  | none ↦ decode_failed
  | some (e, _) ↦ elim (strict_string e.comm) [
    | none ↦ panicked
    | some c ↦ returned (some (to_event e c))
  ]
]

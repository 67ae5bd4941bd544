-- ===== src/Tracer/Open.antt =====
-- tracer/open/open.go: `openEvent` and `WatchEvent`.
pub mod Laws
use bpfd.Prelude.{
  ℕ, Bool, ◌||◌, none, some, [], ◌∷◌, ◌++◌, if◌then◌else◌, Eq, ◌==◌, nat_eq, ok, err, ℤ, pos, Text,
  codes, text_eq,
}
use bpfd.Grpc.{Event}
use bpfd.Strings.{trim_space, has_prefix, format_nat}
use bpfd.Proc.{Host}
use bpfd.Proc.Status.{get_uid_gid}
use bpfd.Wire.{Reader, ◌>>=◌, pure, read_uint, read_int32, read_bytes, bounded_string}
use bpfd.Tracer.{WatchResult, returned, decode_failed, ids_failed}

pub record OpenEvent : Type 0 where
  pub pid : ℕ
  pub tgid : ℕ
  pub return_value : ℤ
  pub comm : Text
  pub filename : Text

-- `binary.Read` into an `openEvent`
unfoldable pub read_open_event : Reader OpenEvent
unfolding read_uint read_int32 read_bytes
read_open_event = do
  p ← read_uint 4
  t ← read_uint 4
  r ← read_int32
  c ← read_bytes 16
  f ← read_bytes 255
  pure (record { pid = p; tgid = t; return_value = r; comm = c; filename = f })

-- `filename` and `command` as `WatchEvent` makes them of the C strings
unfoldable pub filename_of : OpenEvent → Text
unfolding bounded_string trim_space
filename_of e = trim_space (bounded_string 255 e.filename)

unfoldable pub command_of : OpenEvent → Text
unfolding bounded_string trim_space
command_of e = trim_space (bounded_string 16 e.comm)

-- `fmt.Sprintf("/proc/%d", …)`
unfoldable pub proc_dir : ℕ → Text
unfolding format_nat
proc_dir n = codes "/proc/" ++ format_nat n

-- the guard that ignores files "with our own PID"
unfoldable pub is_own : OpenEvent → Bool
unfolding has_prefix proc_dir filename_of command_of
is_own e =
    has_prefix (filename_of e) (proc_dir e.pid)
    || has_prefix (filename_of e) (proc_dir e.tgid)
    || (command_of e == codes "bpfd")

unfoldable pub to_event : OpenEvent → ℕ × ℕ → Event
unfolding filename_of command_of
to_event e (u, g) = record {
  pid = e.pid;
  tgid = e.tgid;
  uid = u;
  gid = g;
  command = command_of e;
  return_value = e.return_value;
  event_data = some ((codes "filename", filename_of e) ∷ []);
  container_id = [];
  container_runtime = [];
  tracer = [];
}

-- `WatchEvent` behind the decoding
unfoldable pub watch_open : Host → OpenEvent → WatchResult
unfolding is_own get_uid_gid to_event
watch_open h e = if is_own e then returned none else elim (get_uid_gid h (pos e.tgid) (pos e.pid)) [
  | err _ ↦ ids_failed e.pid
  | ok ids ↦ returned (some (to_event e ids))
]

-- `WatchEvent` of this tracer on a buffer
unfoldable pub watch_event : Host → Text → WatchResult
unfolding read_open_event watch_open
watch_event h buffer = elim (read_open_event buffer) [
  | none ↦ decode_failed
  | some (e, _) ↦ watch_open h e
]

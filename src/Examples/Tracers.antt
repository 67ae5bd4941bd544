-- ===== src/Examples/Tracers.antt =====
-- The theorems about tracer/ and tcp/tcp.go at concrete buffers and events.
use bpfd.Prelude.{
  ℕ, ◌≡◌, refl, true, false, none, some, List, [], ◌∷◌, ◌++◌, arith, nat_eq, replicate, Result, ok,
  pos, Text, codes, text_beq, text_eq,
}
use bpfd.Strings.{trim_space}
use bpfd.Grpc.{Event}
use bpfd.Proc.{Host}
use bpfd.Proc.Status.{get_uid_gid}
use bpfd.Wire.{strict_string}
use bpfd.Tcp.{flags_to_string}
use bpfd.Tcp.Laws.{read_flags, read_flags-flags_to_string}
use bpfd.Tracer.{WatchResult, returned, Registered, Store, unload_all}
use bpfd.Tracer.Open.{OpenEvent, watch_open, is_own}
use bpfd.Tracer.DockerOpenBreakout.{with_container}
use bpfd.Tracer.DockerOpenBreakout
use bpfd.Tracer.Exec.{ExecEvent, Args, args_of, watch_exec}
use bpfd.Tracer.Exec
use bpfd.Tracer.Exec.Laws.{words_of}
use bpfd.Tracer.TcpDrop.{Segment}
use bpfd.Tracer.TcpDrop.Laws.{IsSegment}

-- a host where every process is one of root in a container of docker
abbrev docker_host : Host
docker_host = record {
  is_missing = λ f. false;
  read = λ f. (codes "Uid:\t0\t0\nGid:\t0\t0\n1:cpu:/docker/c0ffee", false);
  getenv = λ v. [];
  readlink = λ f. none;
  device = λ f. none;
  get_seccomp_invalid = false;
  set_seccomp_invalid = false;
}

abbrev open_passwd : OpenEvent
open_passwd = record {
  pid = 7;
  tgid = 6;
  return_value = pos 3;
  comm = codes "cat" ++ replicate 13 0;
  filename = codes "/etc/passwd" ++ replicate 244 0;
}

abbrev root_event : Event
root_event = record {
  pid = 7;
  tgid = 6;
  uid = 0;
  gid = 0;
  command = codes "cat";
  return_value = pos 3;
  event_data = some ((codes "filename", codes "/etc/passwd") ∷ []);
  container_id = [];
  container_runtime = [];
  tracer = [];
}

open_reported : watch_open docker_host open_passwd ≡ returned (some root_event)
unfolding watch_open text_beq bpfd.Proc.Status.uid_gid_in bpfd.Proc.Status.parse_ids
    bpfd.Proc.Status.find_ids bpfd.Proc.Status.status_lines bpfd.Proc.Status.line_effect
    bpfd.Strconv.parse_int bpfd.Proc.Status.first_field bpfd.Strconv.parse_uint
    bpfd.Strconv.to_uint32
open_reported = refl

-- the process 1 opens a file of the process 10
abbrev open_other : OpenEvent
open_other = record open_passwd { pid = 1; filename = codes "/proc/10/status" ++ replicate 240 0 }

other_ignored : is_own open_other ≡ true
unfolding is_own
other_ignored = refl

-- a docker whose containers all have one directory
abbrev inspect : Text → Result Text (List Text)
inspect id = ok (codes "/var/lib/docker/overlay" ∷ [])

abbrev breakout_event : Event
breakout_event = with_container root_event (codes "docker") (codes "c0ffee")

breakout_reported :
    DockerOpenBreakout.watch_open inspect docker_host open_passwd ≡ returned (some breakout_event)
unfolding DockerOpenBreakout.watch_open text_beq bpfd.Proc.Status.uid_gid_in
    bpfd.Proc.Status.parse_ids bpfd.Proc.Status.find_ids bpfd.Proc.Status.status_lines
    bpfd.Proc.Status.line_effect bpfd.Strconv.parse_int bpfd.Proc.Status.first_field
    bpfd.Strconv.parse_uint bpfd.Proc.Runtime.runtime_in bpfd.Proc.ContainerId.id_in
    bpfd.Strconv.to_uint32
breakout_reported = refl

-- the events of `ls -l`, with one of another process between them
abbrev exec_argument : ℕ → Text → ExecEvent
exec_argument p a = record {
  pid = p;
  tgid = 6;
  uid = 0;
  comm = codes "sh" ++ replicate 14 0;
  kind = pos 0;
  argv = a ++ 0 ∷ [];
  return_value = pos 0;
}

abbrev exec_return : ExecEvent
exec_return = record (exec_argument 7 []) { kind = pos 1 }

abbrev exec_events : List ExecEvent
exec_events =
    exec_argument 7 (codes "ls") ∷ exec_argument 9 (codes "id") ∷ exec_argument 7 (codes "-l") ∷ []

exec_words : words_of 7 exec_events ≡ codes "ls" ∷ codes "-l" ∷ []
unfolding Exec.argument
exec_words = refl

exec_comm : strict_string exec_return.comm ≡ some (codes "sh")
unfolding strict_string
exec_comm = refl

root_ids : get_uid_gid docker_host (pos 6) (pos 7) ≡ ok (0, 0)
unfolding get_uid_gid bpfd.Proc.Status.uid_gid_in bpfd.Proc.Status.parse_ids
    bpfd.Proc.Status.find_ids bpfd.Proc.Status.status_lines trim_space bpfd.Proc.Status.line_effect
    bpfd.Strconv.parse_int bpfd.Proc.Status.first_field bpfd.Strconv.parse_uint
    bpfd.Strconv.to_uint32
root_ids = refl

no_words : args_of 7 [] ≡ []
unfolding args_of bpfd.GoMap.lookup
no_words = refl

abbrev segment : Segment
segment = record {
  source_address = 16777343;
  destination_address = 16777343;
  source_port = 80;
  destination_port = 4000;
  state = 1;
  tcp_flags = 18;
  seq = 66051;
  len = 512;
}

segment-IsSegment : IsSegment segment
segment-IsSegment = (
  omega arith,
  omega arith,
  omega arith,
  omega arith,
  omega arith,
  omega arith,
  omega arith,
  omega arith,
)

read_flags-flags_to_string_example : read_flags (flags_to_string 18) ≡ some 18
read_flags-flags_to_string_example = read_flags-flags_to_string 18 (omega arith)

abbrev registered : Registered
registered = (codes "exec", true) ∷ (codes "open", true) ∷ []

all_unloaded : unload_all registered (true ∷ []) ≡ some (true ∷ false ∷ false ∷ [])
unfolding unload_all bpfd.Tracer.unload_got bpfd.Tracer.get bpfd.GoMap.lookup text_beq
all_unloaded = refl

-- ===== src/Examples/Kernel.antt =====
-- The theorems about the bpf programs of tracer/ at concrete tasks, memories and packets.
use bpfd.Prelude.{
  ℕ, zero, suc, ◌≡◌, refl, ap, ◌≢◌, true, some, List, [], ◌∷◌, ◌++◌, map, arith, nat_beq,
  if◌then◌else◌, nat_eq, length, replicate, All, pos, Text, codes, text_eq,
}
use bpfd.Proc.{Host}
use bpfd.Proc.Foreign.{IsForeign}
use bpfd.Wire.{strict_string}
use bpfd.Wire.Laws.{le_bytes}
use bpfd.Tracer.Exec.{ExecEvent}
use bpfd.Tracer.Exec
use bpfd.Tracer.TcpDrop.{read_segment}
use bpfd.Bpf.{Task, IsTask, Memory, IsMemory}
use bpfd.Bpf.Exec.{execve}
use bpfd.Bpf.Exec.Laws.{event_of as exec_event}
use bpfd.Bpf.Exec.Words.{words_at, IsArgv}
use bpfd.Bpf.Exec.Calls.{of_process}
use bpfd.Bpf.BashReadline.{get_return_value}
use bpfd.Bpf.BashReadline.Laws.{data_of}
use bpfd.Tcp.{states}
use bpfd.Tracer.TcpDrop
use bpfd.Bpf.TcpDrop.Events.{sent as dropped, reported, watch_event-dropped}
use bpfd.Bpf.TcpDrop.Laws.{Headers, IsHeaders}
use bpfd.Examples.Rules.{echo_host}

-- a buffer of the size that is asked for, with a text in front
abbrev fit : ℕ → Text → Text
fit zero s = []
fit (suc n) [] = 0 ∷ fit n []
fit (suc n) (c ∷ s) = c ∷ fit n s

length-fit : (n : ℕ) (s : Text) → length (fit n s) ≡ n
length-fit zero s = refl
length-fit (suc n) [] = ap suc (length-fit n [])
length-fit (suc n) (c ∷ s) = ap suc (length-fit n s)

-- the arguments of `ls -l`
abbrev string_at : ℕ → Text
string_at a =
    if nat_beq a 1008
    then le_bytes 8 2000
    else if nat_beq a 2000
    then codes "-l"
    else if nat_beq a 3000
    then codes "/bin/ls"
    else []

abbrev pub memory : Memory
memory n a = fit n (string_at a)

pub memory-IsMemory : IsMemory memory
memory-IsMemory = record { size = λ n a. length-fit n (string_at a) }

abbrev pub shell : Task
shell = record {
  pid = 7;
  thread = 7;
  parent = 6;
  uid = 1000;
  gid = 1000;
  comm = codes "sh" ++ replicate 14 0;
}

pub shell-IsTask : IsTask shell
shell-IsTask = record {
  pid = omega arith;
  thread = omega arith;
  parent = omega arith;
  uid = omega arith;
  gid = omega arith;
  comm = refl;
}

-- a host where the file of no task is found
abbrev pub bare_host : Host
bare_host = record echo_host { is_missing = λ f. true }

pub shell-IsForeign : IsForeign bare_host 6 7
shell-IsForeign = record { missing = λ leaf. refl }

pub shell-IsArgv : IsArgv memory 1000 1 (2000 ∷ [])
unfolding bpfd.Wire.little_endian
shell-IsArgv = (refl, (λ q. absurd (omega arith)), refl)

abbrev pub behind : Text
behind = replicate 124 0

abbrev pub own : List ExecEvent
own = map exec_event (execve memory behind shell 3000 1000)

-- and an event of another process between them
abbrev pub other : ExecEvent
other = record {
  pid = 9;
  tgid = 6;
  uid = 0;
  comm = codes "sh" ++ replicate 14 0;
  kind = pos 0;
  argv = codes "id" ++ 0 ∷ [];
  return_value = pos 0;
}

pub own_events : of_process 7 (other ∷ own) ≡ own
unfolding execve
own_events = refl

-- the task at the return: `ls` runs in it by now, as root
abbrev pub listing : Task
listing = record shell { uid = 0; gid = 0; comm = codes "ls" ++ replicate 14 0 }

pub listing-IsTask : IsTask listing
listing-IsTask = record {
  pid = omega arith;
  thread = omega arith;
  parent = omega arith;
  uid = omega arith;
  gid = omega arith;
  comm = refl;
}

pub listing_comm : strict_string listing.comm ≡ some (codes "ls")
unfolding strict_string
listing_comm = refl

call_words : words_at memory (3000 ∷ 2000 ∷ []) ≡ codes "/bin/ls" ∷ codes "-l" ∷ []
unfolding bpfd.Wire.bounded_string bpfd.Strings.trim_space
call_words = refl

abbrev all_letters : ℕ → Text
all_letters n = replicate n 97

-- a line of letters that does not end
abbrev pub letters : Memory
letters n a = all_letters n

length-all_letters : (n : ℕ) → length (all_letters n) ≡ n
length-all_letters zero = refl
length-all_letters (suc n) = ap suc (length-all_letters n)

pub letters-IsMemory : IsMemory letters
letters-IsMemory = record { size = λ n a. length-all_letters n }

All-all_letters : (n : ℕ) → All (λ c. c ≢ 0) (all_letters n)
All-all_letters zero = tt
All-all_letters (suc n) = ((λ q. absurd (omega arith)), All-all_letters n)

pub line_read : get_return_value letters shell 500 ≡ some (data_of letters shell 500)
unfolding get_return_value
line_read = refl

abbrev pub headers : Headers
headers = record {
  source_port = 4000;
  destination_port = 80;
  seq = 66051;
  acknowledgment = 1;
  data_offset = 80;
  flags = 18;
  version = 69;
  service = 0;
  total_length = 60;
  fragment = 0;
  protocol = 6;
  source_address = 2130706433;
  destination_address = 2130706433;
}

pub headers-IsHeaders : IsHeaders headers
headers-IsHeaders = record {
  source_port = omega arith;
  destination_port = omega arith;
  seq = omega arith;
  flags = omega arith;
  total_length = omega arith;
  source_address = omega arith;
  destination_address = omega arith;
}

watch_event-dropped_example :
    TcpDrop.watch_event (dropped shell headers 1 0) ≡ reported shell headers 1 0 (states 1)
watch_event-dropped_example =
    watch_event-dropped shell headers 1 0 shell-IsTask headers-IsHeaders (omega arith)

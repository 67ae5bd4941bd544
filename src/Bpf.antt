-- ===== src/Bpf.antt =====
-- The bpf programs that the five tracers compile into the kernel: the C sources that the constants
-- `source` of tracer/*/*.go hold. This module has what they share. The kernel's side is a parameter: the
-- task that a probe runs in, the memory that `bpf_probe_read` reads, and the table `BPF_HASH(tmp, u64, data_t)`.
pub mod Pairing
pub mod Full
pub mod Threads
pub mod Open
pub mod DockerOpenBreakout
pub mod Exec
pub mod TcpDrop
pub mod BashReadline
use bpfd.Prelude.{
  ℕ, ◌+◌, ◌*◌, ◌%◌, ◌^◌, ◌<◌, ◌≡◌, Option, none, some, nat_beq, if◌then◌else◌, Eq, nat_eq, length,
  Text, text_eq,
}
use bpfd.Wire.Laws.{le_bytes}

-- What the helpers tell of the current task: `bpf_get_current_pid_tgid() >> 32` and its low half,
-- `task->real_parent->tgid`, the halves of `bpf_get_current_uid_gid()`, and the 16 bytes of
-- `bpf_get_current_comm`.
pub record Task : Type 0 where
  pub pid : ℕ
  pub thread : ℕ
  pub parent : ℕ
  pub uid : ℕ
  pub gid : ℕ
  pub comm : Text

-- The numbers have the width of the kernel's fields, and the command is an array of `TASK_COMM_LEN` bytes.
pub record IsTask (t : Task) : Type 0 where
  pub pid : t.pid < 2 ^ 32
  pub thread : t.thread < 2 ^ 32
  pub parent : t.parent < 2 ^ 32
  pub uid : t.uid < 2 ^ 32
  pub gid : t.gid < 2 ^ 32
  pub comm : length t.comm ≡ 16

-- `bpf_get_current_pid_tgid()`
abbrev pub pid_tgid : Task → ℕ
pid_tgid t = t.pid * 2 ^ 32 + t.thread

-- `bpf_probe_read`: that many bytes at the address
abbrev pub Memory : Type 0
Memory = ℕ → ℕ → Text

-- what it fills a buffer of the given size with is as long as the buffer
pub record IsMemory (memory : Memory) : Type 0 where
  pub size : (n address : ℕ) → length (memory n address) ≡ n

-- a value of the register of 64 bits assigned to an `int`
abbrev pub to_int : ℕ → ℕ
to_int rc = rc % 2 ^ 32

-- `BPF_HASH(tmp, u64, data_t)`
pub record HashTable (A : Type 0) : Type 1 where
  pub Table : Type 0
  pub empty : Table
  pub lookup : ℕ → Table → Option A
  pub update : ℕ → A → Table → Table
  pub delete : ℕ → Table → Table

-- The behaviour of a table that is never full.
pub record HasRoom {A : Type 0} (tmp : HashTable A) : Type 0 where
  pub lookup-empty : (i : ℕ) → tmp.lookup i tmp.empty ≡ none
  pub lookup-update :
      (i j : ℕ) (a : A) (m : tmp.Table)
      → tmp.lookup j (tmp.update i a m) ≡ (if nat_beq i j then some a else tmp.lookup j m)
  pub lookup-delete :
      (i j : ℕ) (m : tmp.Table)
      → tmp.lookup j (tmp.delete i m) ≡ (if nat_beq i j then none else tmp.lookup j m)

-- ===== src/Bpf/Exec.antt =====
-- The bpf program of tracer/exec/exec.go: `syscall__execve` and `do_ret_sys_execve`.
pub mod Laws
pub mod Words
pub mod Calls
use bpfd.Prelude.{
  ℕ, zero, suc, ◌+◌, ◌*◌, List, [], ◌∷◌, ◌++◌, nat_beq, if◌then◌else◌, Eq, nat_eq, replicate, Text,
  codes, text_eq,
}
use bpfd.Wire.{little_endian}
use bpfd.Wire.Laws.{le_bytes}
use bpfd.Bpf.{Task, Memory, to_int}

-- `data_t`
pub record ExecData : Type 0 where
  pub pid : ℕ
  pub tgid : ℕ
  pub uid : ℕ
  pub comm : Text
  pub kind : ℕ
  pub argv : Text
  pub retval : ℕ

-- what both probes fill in first, with the type of the event
unfoldable pub of_task : Task → ℕ → ExecData
of_task t kind = record {
  pid = t.pid;
  tgid = t.parent;
  uid = t.uid;
  comm = t.comm;
  kind = kind;
  argv = replicate 128 0;
  retval = 0;
}

-- `*ptr` of a pointer to a pointer
abbrev pub pointer_at : Memory → ℕ → ℕ
pointer_at memory address = little_endian (memory 8 address)

-- `__submit_arg`
unfoldable pub with_arg : Memory → ExecData → ℕ → ExecData
with_arg memory d ptr = record d { argv = memory 128 ptr }

-- The loop from the argument `i` on, with `n` rounds left. Behind it the array "..." is submitted, of
-- which 128 bytes are read: `behind` are those that follow it on the stack.
unfoldable pub submit_args : Memory → Text → ExecData → ℕ → ℕ → ℕ → List ExecData
unfolding with_arg little_endian
submit_args memory behind d argv i zero = record d { argv = codes "..." ++ 0 ∷ behind } ∷ []
submit_args memory behind d argv i (suc n) =
    let rest = submit_args memory behind d argv (suc i) n in
    if nat_beq (pointer_at memory (argv + 8 * i)) 0
    then []
    else with_arg memory d (pointer_at memory (argv + 8 * i)) ∷ rest

-- `syscall__execve` with what it submits; `MAXARG` is 20, and the name stands for the first argument
unfoldable pub execve : Memory → Text → Task → ℕ → ℕ → List ExecData
unfolding of_task submit_args
execve memory behind t filename argv =
    with_arg memory (of_task t 0) filename ∷ submit_args memory behind (of_task t 0) argv 1 19

-- `do_ret_sys_execve`
unfoldable pub execve_return : Task → ℕ → ExecData
unfolding of_task
execve_return t rc = record (of_task t 1) { retval = to_int rc }

-- the bytes of the struct
unfoldable pub layout : ExecData → Text
layout d =
    le_bytes 4 d.pid
    ++ le_bytes 4 d.tgid
    ++ le_bytes 4 d.uid
    ++ (d.comm ++ (le_bytes 4 d.kind ++ (d.argv ++ le_bytes 4 d.retval)))

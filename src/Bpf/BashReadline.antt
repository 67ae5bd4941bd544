-- ===== src/Bpf/BashReadline.antt =====
-- The bpf program of tracer/bashreadline/bashreadline.go: `get_return_value` on the return of `readline`.
pub mod Laws
use bpfd.Prelude.{ℕ, Option, none, some, ◌++◌, nat_beq, if◌then◌else◌, Eq, nat_eq, Text, text_eq}
use bpfd.Wire.Laws.{le_bytes}
use bpfd.Bpf.{Task, Memory}

-- `data_t`
pub record ReadlineData : Type 0 where
  pub pid : ℕ
  pub tgid : ℕ
  pub uid : ℕ
  pub gid : ℕ
  pub comm : Text
  pub ret : ℕ

-- `get_return_value`, with the register of the return value, the address of the line
unfoldable pub get_return_value : Memory → Task → ℕ → Option ReadlineData
get_return_value memory t line =
    if nat_beq line 0
    then none
    else some (record {
      pid = t.pid;
      tgid = t.parent;
      uid = t.uid;
      gid = t.gid;
      comm = memory 80 line;
      ret = 0;
    })

-- the bytes of the struct
unfoldable pub layout : ReadlineData → Text
layout d =
    le_bytes 4 d.pid
    ++ le_bytes 4 d.tgid
    ++ le_bytes 4 d.uid
    ++ le_bytes 4 d.gid
    ++ d.comm
    ++ le_bytes 4 d.ret

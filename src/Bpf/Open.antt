-- ===== src/Bpf/Open.antt =====
-- The bpf program of tracer/open/open.go: `trace_entry` and `trace_return` on `do_sys_open`.
pub mod Laws
use bpfd.Prelude.{ℕ, Option, ◌++◌, Eq, nat_eq, Text, text_eq}
use bpfd.Wire.Laws.{le_bytes}
use bpfd.Bpf.{Task, pid_tgid, Memory, to_int, HashTable}
use bpfd.Bpf.Pairing

-- `data_t`
pub record OpenData : Type 0 where
  pub pid : ℕ
  pub tgid : ℕ
  pub ret : ℕ
  pub comm : Text
  pub filename : Text

-- `trace_entry` up to the update of `tmp`: what it gathers, with the address of the name of the file
unfoldable pub gather : Memory → Task → ℕ → OpenData
gather memory t filename = record {
  pid = t.pid;
  tgid = t.parent;
  ret = 0;
  comm = t.comm;
  filename = memory 255 filename;
}

-- `data.ret = PT_REGS_RC(ctx)`
unfoldable pub set_return : OpenData → ℕ → OpenData
set_return d rc = record d { ret = to_int rc }

-- The bytes of the struct, `pad` being the byte behind the name that aligns its size.
unfoldable pub layout : OpenData → Text → Text
layout d pad =
    le_bytes 4 d.pid ++ le_bytes 4 d.tgid ++ le_bytes 4 d.ret ++ d.comm ++ d.filename ++ pad

module _ (tmp : HashTable OpenData) where
  unfoldable pub trace_entry : Memory → Task → ℕ → tmp.Table → tmp.Table
  unfolding gather Pairing.save
  trace_entry memory t filename m =
      Pairing.save tmp set_return (pid_tgid t) (gather memory t filename) m

  unfoldable pub trace_return : Task → ℕ → tmp.Table → tmp.Table × Option OpenData
  unfolding set_return Pairing.trace_return
  trace_return t rc m = Pairing.trace_return tmp set_return (pid_tgid t) rc m

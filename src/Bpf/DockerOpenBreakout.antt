-- ===== src/Bpf/DockerOpenBreakout.antt =====
-- The bpf program of tracer/dockeropenbreakout/dockeropenbreakout.go, which is that of
-- tracer/open/open.go, line by line.
use bpfd.Prelude.{ℕ, Option, nat_eq, text_eq}
use bpfd.Bpf.{Task, Memory, HashTable}
use bpfd.Bpf.Open.{OpenData}
use bpfd.Bpf.Open

module _ (tmp : HashTable OpenData) where
  unfoldable pub breakout_entry : Memory → Task → ℕ → tmp.Table → tmp.Table
  unfolding Open.trace_entry
  breakout_entry memory t filename m = Open.trace_entry tmp memory t filename m

  unfoldable pub breakout_return : Task → ℕ → tmp.Table → tmp.Table × Option OpenData
  unfolding Open.trace_return
  breakout_return t rc m = Open.trace_return tmp t rc m

-- ===== src/Bpf/TcpDrop.antt =====
-- The bpf program of tracer/tcpdrop/tcpdrop.go: `trace_entry` and `trace_return` on `tcp_drop`. The headers of
-- the packet are the bytes of the wire; the program loads their fields as numbers of the machine, which is
-- little-endian.
pub mod Laws
pub mod Events
use bpfd.Prelude.{ℕ, ◌+◌, ◌*◌, ◌/◌, ◌%◌, Option, Eq, nat_eq, take, drop, Text, text_eq}
use bpfd.Wire.{little_endian}
use bpfd.Tracer.TcpDrop.{Segment}
use bpfd.Bpf.{Task, pid_tgid, to_int, HashTable}
use bpfd.Bpf.Pairing

-- What the probe gets of the socket and the packet: `skc_state`, and the two headers.
pub record Packet : Type 0 where
  pub state : ℕ
  pub tcp : Text
  pub ip : Text

-- `data_t`
pub record TcpData : Type 0 where
  pub pid : ℕ
  pub tgid : ℕ
  pub uid : ℕ
  pub gid : ℕ
  pub ret : ℕ
  pub comm : Text
  pub segment : Segment

-- the field of a header with `n` bytes at an offset
abbrev pub load : ℕ → ℕ → Text → ℕ
load n offset header = little_endian (take n (drop offset header))

-- `ntohs`
abbrev pub ntohs : ℕ → ℕ
ntohs v = v / 256 + v % 256 * 256

-- the details of the packet: `source`, `dest`, `seq` and byte 13 of the TCP header, `tot_len`, `saddr` and
-- `daddr` of the IP header
unfoldable pub segment_of : Packet → Segment
unfolding little_endian
segment_of p = record {
  source_address = load 4 12 p.ip;
  destination_address = load 4 16 p.ip;
  source_port = ntohs (load 2 0 p.tcp);
  destination_port = ntohs (load 2 2 p.tcp);
  state = p.state % 256;
  tcp_flags = load 1 13 p.tcp;
  seq = load 4 4 p.tcp;
  len = load 2 2 p.ip;
}

-- `trace_entry` up to the update of `tmp`
unfoldable pub gather : Task → Packet → TcpData
unfolding segment_of
gather t p = record {
  pid = t.pid;
  tgid = t.parent;
  uid = t.uid;
  gid = t.gid;
  ret = 0;
  comm = t.comm;
  segment = segment_of p;
}

-- `data.ret = PT_REGS_RC(ctx)`
unfoldable pub set_return : TcpData → ℕ → TcpData
set_return d rc = record d { ret = to_int rc }

module _ (tmp : HashTable TcpData) where
  unfoldable pub trace_entry : Task → Packet → tmp.Table → tmp.Table
  unfolding gather Pairing.save
  trace_entry t p m = Pairing.save tmp set_return (pid_tgid t) (gather t p) m

  unfoldable pub trace_return : Task → ℕ → tmp.Table → tmp.Table × Option TcpData
  unfolding set_return Pairing.trace_return
  trace_return t rc m = Pairing.trace_return tmp set_return (pid_tgid t) rc m

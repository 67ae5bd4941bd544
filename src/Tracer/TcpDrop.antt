-- ===== src/Tracer/TcpDrop.antt =====
-- tracer/tcpdrop/tcpdrop.go: `tcpEvent`, `WatchEvent` and `inetNtoa`.
pub mod Laws
use bpfd.Prelude.{ℕ, ◌/◌, ◌%◌, none, some, List, [], ◌∷◌, ◌++◌, Eq, nat_eq, ℤ, Text, codes, text_eq}
use bpfd.Grpc.{Event}
use bpfd.Strings.{trim_space, format_nat}
use bpfd.Tcp.{states, flags_to_string}
use bpfd.Wire.{Reader, ◌>>=◌, pure, read_uint, read_int32, read_bytes, bounded_string}
use bpfd.Tracer.{WatchResult, returned, decode_failed, invalid_state}

-- the fields behind `Comm`
pub record Segment : Type 0 where
  pub source_address : ℕ
  pub destination_address : ℕ
  pub source_port : ℕ
  pub destination_port : ℕ
  pub state : ℕ
  pub tcp_flags : ℕ
  pub seq : ℕ
  pub len : ℕ

pub record TcpEvent : Type 0 where
  pub pid : ℕ
  pub tgid : ℕ
  pub uid : ℕ
  pub gid : ℕ
  pub return_value : ℤ
  pub comm : Text
  pub segment : Segment

unfoldable pub read_segment : Reader Segment
unfolding read_uint
read_segment = do
  sa ← read_uint 4
  da ← read_uint 4
  sp ← read_uint 2
  dp ← read_uint 2
  st ← read_uint 1
  f ← read_uint 1
  s ← read_uint 4
  l ← read_uint 2
  pure (record {
    source_address = sa;
    destination_address = da;
    source_port = sp;
    destination_port = dp;
    state = st;
    tcp_flags = f;
    seq = s;
    len = l;
  })

-- `binary.Read` into a `tcpEvent`
unfoldable pub read_tcp_event : Reader TcpEvent
unfolding read_uint read_int32 read_bytes read_segment
read_tcp_event = do
  p ← read_uint 4
  t ← read_uint 4
  u ← read_uint 4
  g ← read_uint 4
  r ← read_int32
  c ← read_bytes 16
  s ← read_segment
  pure (record { pid = p; tgid = t; uid = u; gid = g; return_value = r; comm = c; segment = s })

-- `fmt.Sprintf("%d", byte(n))`
unfoldable pub octet : ℕ → Text
unfolding format_nat
octet n = format_nat (n % 256)

-- `inetNtoa`
unfoldable pub inet_ntoa : ℕ → Text
unfolding octet
inet_ntoa a =
    octet a ++ b'.' ∷ (octet (a / 256) ++ b'.' ∷ (octet (a / 65536) ++ b'.' ∷ octet (a / 16777216)))

unfoldable pub to_data : Segment → Text → List (Text × Text)
unfolding inet_ntoa flags_to_string format_nat
to_data s st =
    (codes "saddr", inet_ntoa s.source_address)
    ∷ (codes "daddr", inet_ntoa s.destination_address)
    ∷ (codes "sport", format_nat s.source_port)
    ∷ (codes "dport", format_nat s.destination_port)
    ∷ (codes "state", st)
    ∷ (codes "tcpflags", flags_to_string s.tcp_flags)
    ∷ (codes "seq", format_nat s.seq)
    ∷ (codes "len", format_nat s.len)
    ∷ []

unfoldable pub to_event : TcpEvent → Text → Event
unfolding bounded_string trim_space to_data
to_event e st = record {
  pid = e.pid;
  tgid = e.tgid;
  uid = e.uid;
  gid = e.gid;
  command = trim_space (bounded_string 16 e.comm);
  return_value = e.return_value;
  event_data = some (to_data e.segment st);
  container_id = [];
  container_runtime = [];
  tracer = [];
}

-- `WatchEvent` of this tracer on a buffer
unfoldable pub watch_event : Text → WatchResult
unfolding read_tcp_event states to_event
watch_event buffer = elim (read_tcp_event buffer) [
  | none ↦ decode_failed
  | some (e, _) ↦ elim (states e.segment.state) [
    | none ↦ invalid_state e.segment.state
    | some st ↦ returned (some (to_event e st))
  ]
]

-- ===== src/Bpf/TcpDrop/Events.antt =====
-- A segment that the kernel drops, from its headers to the event that tracer/tcpdrop returns.
use bpfd.Prelude.{
  ℕ, ◌*◌, ◌/◌, ◌%◌, ◌^◌, ◌<◌, ◌≡◌, refl, sym, ap, ◌∙◌, inl, inr, Option, none, some, List, [], ◌∷◌,
  ◌++◌, append-nil, arith, Option-cases, nat_eq, Text, codes, text_eq,
}
use bpfd.Grpc.{Event}
use bpfd.Strings.{trim_space, format_nat}
use bpfd.Tcp.{states, flags_to_string}
use bpfd.Wire.{bounded_string, to_int32, little_endian, ◌>>=◌, pure, read_bytes}
use bpfd.Wire.Laws.{le_bytes, little_endian-four, read_bytes_lem, bind_lem}
use bpfd.Tracer.{WatchResult, returned, invalid_state}
use bpfd.Tracer.TcpDrop.{
  Segment, TcpEvent, read_segment, read_tcp_event, inet_ntoa, octet, to_data, to_event, watch_event,
}
use bpfd.Tracer.TcpDrop.Laws.{kernel_segment}
use bpfd.Bpf.{Task, IsTask, to_int}
use bpfd.Bpf.TcpDrop.{TcpData, gather, set_return, segment_of}
use bpfd.Bpf.TcpDrop.Laws.{Headers, IsHeaders, packet, swapped, segment_sent, read_segment-packet}

-- The bytes of `data_t`: the fields before `saddr`, and then the rest with its padding.
unfoldable pub layout : TcpData → Text
layout d =
    le_bytes 4 d.pid
    ++ le_bytes 4 d.tgid
    ++ le_bytes 4 d.uid
    ++ le_bytes 4 d.gid
    ++ le_bytes 4 d.ret
    ++ (d.comm ++ kernel_segment d.segment)

-- The dotted quad of an address.
abbrev pub dotted : ℕ → Text
dotted a =
    format_nat (a / 2 ^ 24)
    ++ b'.'
      ∷ (format_nat (a / 2 ^ 16 % 256)
          ++ b'.' ∷ (format_nat (a / 2 ^ 8 % 256) ++ b'.' ∷ format_nat (a % 256)))

inet_ntoa-swapped : (a : ℕ) → a < 2 ^ 32 → inet_ntoa (swapped 4 a) ≡ dotted a
unfolding inet_ntoa octet little_endian
inet_ntoa-swapped a h =
    let v = swapped 4 a in
    let b0 : v % 256 ≡ a / 2 ^ 24 = omega arith in
    let b1 : v / 256 % 256 ≡ a / 2 ^ 16 % 256 = omega arith in
    let b2 : v / 65536 % 256 ≡ a / 2 ^ 8 % 256 = omega arith in
    let b3 : v / 16777216 % 256 ≡ a % 256 = omega arith in rw (b0, b1, b2, b3) refl

-- what the program sends for a packet that is dropped
abbrev pub sent : Task → Headers → ℕ → ℕ → Text
sent t q state rc = layout (set_return (gather t (packet q state)) rc)

-- The segment as the tracer reads it.
abbrev pub segment_read : Headers → ℕ → Segment
segment_read q state = record (segment_sent q state) {
  seq = swapped 4 q.seq % 2 ^ 16 * 2 ^ 16;
  len = swapped 4 q.seq / 2 ^ 16;
}

abbrev pub event_read : Task → Headers → ℕ → ℕ → TcpEvent
event_read t q state rc = record {
  pid = t.pid;
  tgid = t.parent;
  uid = t.uid;
  gid = t.gid;
  return_value = to_int32 (to_int rc);
  comm = t.comm;
  segment = segment_read q state;
}

-- the rest of the buffer behind what the tracer reads
abbrev unread : Headers → Text
unread q = le_bytes 2 (swapped 2 q.total_length) ++ (0 ∷ 0 ∷ []) ++ []

abbrev with_segment : Task → ℕ → Text → Segment → TcpEvent
with_segment t rc c g = record {
  pid = t.pid;
  tgid = t.parent;
  uid = t.uid;
  gid = t.gid;
  return_value = to_int32 (to_int rc);
  comm = c;
  segment = g;
}

read_tail :
    (t : Task) (q : Headers) (state rc : ℕ)
    → IsTask t
    → IsHeaders q
    → state < 256
    → (read_bytes 16 >>= λ c. read_segment >>= λ g. pure (with_segment t rc c g))
        (t.comm ++ kernel_segment (segment_of (packet q state)))
      ≡ some (event_read t q state rc, unread q)
read_tail t q state rc ht hq hs =
    let k = kernel_segment (segment_of (packet q state)) in
    bind_lem (read_bytes 16) (λ c. read_segment >>= λ g. pure (with_segment t rc c g)) (t.comm ++ k)
      k t.comm (read_bytes_lem 16 t.comm k ht.comm)
    ∙ bind_lem read_segment (λ g. pure (with_segment t rc t.comm g)) k (unread q)
        (segment_read q state)
        (ap read_segment (sym (append-nil k)) ∙ read_segment-packet q state [] hq hs)

read_tcp_event-sent :
    (t : Task) (q : Headers) (state rc : ℕ)
    → IsTask t
    → IsHeaders q
    → state < 256
    → read_tcp_event (sent t q state rc) ≡ some (event_read t q state rc, unread q)
unfolding layout gather set_return read_tcp_event
read_tcp_event-sent t q state rc ht hq hs =
    rw
      (
        little_endian-four t.pid ht.pid,
        little_endian-four t.parent ht.parent,
        little_endian-four t.uid ht.uid,
        little_endian-four t.gid ht.gid,
        little_endian-four (to_int rc) (omega arith),
      )
      (read_tail t q state rc ht hq hs)

-- The data of the event: ports, addresses and flags as in the headers. The sequence number and the length
-- are the two halves of the number that the bytes of the sequence number give in reverse order, the lower
-- half as the upper one.
abbrev pub dropped_data : Headers → Text → List (Text × Text)
dropped_data q st =
    (codes "saddr", dotted q.source_address)
    ∷ (codes "daddr", dotted q.destination_address)
    ∷ (codes "sport", format_nat q.source_port)
    ∷ (codes "dport", format_nat q.destination_port)
    ∷ (codes "state", st)
    ∷ (codes "tcpflags", flags_to_string q.flags)
    ∷ (codes "seq", format_nat (swapped 4 q.seq % 2 ^ 16 * 2 ^ 16))
    ∷ (codes "len", format_nat (swapped 4 q.seq / 2 ^ 16))
    ∷ []

abbrev pub dropped_event : Task → Headers → ℕ → Text → Event
dropped_event t q rc st = record {
  pid = t.pid;
  tgid = t.parent;
  uid = t.uid;
  gid = t.gid;
  command = trim_space (bounded_string 16 t.comm);
  return_value = to_int32 (to_int rc);
  event_data = some (dropped_data q st);
  container_id = [];
  container_runtime = [];
  tracer = [];
}

-- what the tracer returns, by the name of the state
abbrev pub reported : Task → Headers → ℕ → ℕ → Option Text → WatchResult
reported t q state rc none = invalid_state state
reported t q state rc (some st) = returned (some (dropped_event t q rc st))

to_event-read :
    (t : Task) (q : Headers) (state rc : ℕ) (st : Text)
    → IsHeaders q
    → to_event (event_read t q state rc) st ≡ dropped_event t q rc st
unfolding to_event to_data
to_event-read t q state rc st h =
    rw
      (
        inet_ntoa-swapped q.source_address h.source_address,
        inet_ntoa-swapped q.destination_address h.destination_address,
      )
      refl

-- From a segment that the kernel drops to its event, for every task, every headers and every state: the
-- tracer returns an event exactly if the state has a name, with the IDs, the user and the group of the
-- task, the two addresses as dotted quads, and the ports and flags of the headers. The sequence number is
-- not that of the headers and the length not that of the packet: neither the program nor the tracer
-- converts the first from network order, and the tracer reads it and the length two bytes too early.
pub watch_event-dropped :
    (t : Task) (q : Headers) (state rc : ℕ)
    → IsTask t
    → IsHeaders q
    → state < 256
    → watch_event (sent t q state rc) ≡ reported t q state rc (states state)
unfolding watch_event
watch_event-dropped t q state rc ht hq hs = elim (Option-cases (states state)) [
  | inl n ↦ rw (read_tcp_event-sent t q state rc ht hq hs, watch_event, n) refl
  | inr (st, n) ↦
      rw (read_tcp_event-sent t q state rc ht hq hs, watch_event, n)
        (ap (λ e. returned (some e)) (to_event-read t q state rc st hq))
]

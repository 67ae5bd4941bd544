-- ===== src/Bpf/TcpDrop/Laws.antt =====
-- A segment that the kernel drops, from its headers to the tracer of tracer/tcpdrop.
use bpfd.Prelude.{
  ℕ, zero, suc, ◌*◌, ◌/◌, ◌%◌, ◌^◌, ◌<◌, ◌≡◌, refl, some, [], ◌∷◌, ◌++◌, arith, nat_eq, Text,
  text_eq,
}
use bpfd.Wire.{little_endian}
use bpfd.Wire.Laws.{le_bytes}
use bpfd.Tracer.TcpDrop.{Segment, read_segment}
use bpfd.Tracer.TcpDrop.Laws.{kernel_segment, IsSegment, read_segment-kernel_segment}
use bpfd.Bpf.TcpDrop.{Packet, ntohs, segment_of}

-- The `n` bytes of a number in network order, the highest first.
abbrev pub be_bytes : ℕ → ℕ → Text
be_bytes zero v = []
be_bytes (suc n) v = v / 256 ^ n % 256 ∷ be_bytes n v

-- What the headers of a segment say.
pub record Headers : Type 0 where
  pub source_port : ℕ
  pub destination_port : ℕ
  pub seq : ℕ
  pub acknowledgment : ℕ
  pub data_offset : ℕ
  pub flags : ℕ
  pub version : ℕ
  pub service : ℕ
  pub total_length : ℕ
  pub fragment : ℕ
  pub protocol : ℕ
  pub source_address : ℕ
  pub destination_address : ℕ

pub record IsHeaders (q : Headers) : Type 0 where
  pub source_port : q.source_port < 2 ^ 16
  pub destination_port : q.destination_port < 2 ^ 16
  pub seq : q.seq < 2 ^ 32
  pub flags : q.flags < 256
  pub total_length : q.total_length < 2 ^ 16
  pub source_address : q.source_address < 2 ^ 32
  pub destination_address : q.destination_address < 2 ^ 32

-- The headers on the wire, each up to the last field that the program loads.
abbrev pub packet : Headers → ℕ → Packet
packet q state = record {
  state = state;
  tcp =
      be_bytes 2 q.source_port
      ++ be_bytes 2 q.destination_port
      ++ be_bytes 4 q.seq
      ++ be_bytes 4 q.acknowledgment
      ++ q.data_offset ∷ q.flags ∷ [];
  ip =
      q.version ∷ q.service ∷ []
      ++ be_bytes 2 q.total_length
      ++ be_bytes 4 q.fragment
      ++ be_bytes 4 q.protocol
      ++ be_bytes 4 q.source_address
      ++ be_bytes 4 q.destination_address;
}

-- the number that the bytes of another one give in the reverse order
abbrev pub swapped : ℕ → ℕ → ℕ
swapped n v = little_endian (be_bytes n v)

abbrev pub segment_sent : Headers → ℕ → Segment
segment_sent q state = record {
  source_address = swapped 4 q.source_address;
  destination_address = swapped 4 q.destination_address;
  source_port = q.source_port;
  destination_port = q.destination_port;
  state = state;
  tcp_flags = q.flags;
  seq = swapped 4 q.seq;
  len = swapped 2 q.total_length;
}

port : (v : ℕ) → v < 2 ^ 16 → ntohs (swapped 2 v) ≡ v
unfolding little_endian
port v h = omega arith

byte : (v : ℕ) → v < 256 → v % 256 ≡ v
byte v h = omega arith

one_byte : (v : ℕ) → little_endian (v ∷ []) ≡ v
unfolding little_endian
one_byte v = omega arith

segment_of-packet :
    (q : Headers) (state : ℕ)
    → IsHeaders q
    → state < 256
    → segment_of (packet q state) ≡ segment_sent q state
unfolding segment_of
segment_of-packet q state h s =
    rw
      (
        byte state s,
        port q.source_port h.source_port,
        port q.destination_port h.destination_port,
        one_byte q.flags,
      )
      refl

swapped-four : (v : ℕ) → swapped 4 v < 2 ^ 32
unfolding little_endian
swapped-four v = omega arith

swapped-two : (v : ℕ) → swapped 2 v < 2 ^ 16
unfolding little_endian
swapped-two v = omega arith

segment_sent-IsSegment :
    (q : Headers) (state : ℕ) → IsHeaders q → state < 256 → IsSegment (segment_sent q state)
segment_sent-IsSegment q state h s = (
  swapped-four q.source_address,
  swapped-four q.destination_address,
  h.source_port,
  h.destination_port,
  s,
  h.flags,
  swapped-four q.seq,
  swapped-two q.total_length,
)

-- Of a segment that is dropped, the ports, the flags and the state are read as the headers give
-- them, and the addresses as the numbers whose lowest byte is the first of the dotted quad. But
-- neither the program nor the tracer converts the sequence number from network order, and the
-- tracer reads it and the length two bytes too early: of the number that has the bytes of the
-- sequence number in reverse order, it reports the lower half as the upper one, and the upper half
-- as the length. The length of the packet is not reported.
pub read_segment-packet :
    (q : Headers) (state : ℕ) (rest : Text)
    → IsHeaders q
    → state < 256
    → read_segment (kernel_segment (segment_of (packet q state)) ++ rest)
      ≡ some (
        record (segment_sent q state) {
          seq = swapped 4 q.seq % 2 ^ 16 * 2 ^ 16;
          len = swapped 4 q.seq / 2 ^ 16;
        },
        le_bytes 2 (swapped 2 q.total_length) ++ (0 ∷ 0 ∷ []) ++ rest,
      )
read_segment-packet q state rest h s =
    rw (segment_of-packet q state h s)
      (read_segment-kernel_segment (segment_sent q state) rest (segment_sent-IsSegment q state h s))

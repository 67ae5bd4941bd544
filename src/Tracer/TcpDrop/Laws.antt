-- ===== src/Tracer/TcpDrop/Laws.antt =====
-- What the tracer makes of the segment that the kernel sends, and how it prints addresses.
use bpfd.Prelude.{
  ℕ, ◌+◌, ◌*◌, ◌/◌, ◌%◌, ◌^◌, ◌<◌, ◌≡◌, refl, ap, ◌∙◌, some, [], ◌∷◌, ◌++◌, arith, nat_eq, Text,
  text_eq,
}
use bpfd.Strings.{split, format_nat}
use bpfd.Strings.Split.{Lacks, split-append, split-Lacks}
use bpfd.Strings.Decimal.{format_nat-AllDigits, AllDigits-Lacks}
use bpfd.Wire.{little_endian}
use bpfd.Wire.Laws.{le_bytes}
use bpfd.Tracer.TcpDrop.{Segment, read_segment, inet_ntoa, octet}

octet-Lacks : (n : ℕ) → Lacks b'.' (octet n)
unfolding octet
octet-Lacks n =
    AllDigits-Lacks b'.' (format_nat (n % 256)) (omega arith) (format_nat-AllDigits (n % 256))

four_parts :
    (p q r s : Text)
    → Lacks b'.' p
    → Lacks b'.' q
    → Lacks b'.' r
    → Lacks b'.' s
    → split (p ++ b'.' ∷ (q ++ b'.' ∷ (r ++ b'.' ∷ s))) b'.' ≡ p ∷ q ∷ r ∷ s ∷ []
four_parts p q r s hp hq hr hs =
    split-append p _ b'.' hp
    ∙ ap (λ t. p ∷ t)
        (split-append q _ b'.' hq
          ∙ ap (λ t. q ∷ t) (split-append r _ b'.' hr ∙ ap (λ t. r ∷ t) (split-Lacks s b'.' hs)))

octet-byte : (n a : ℕ) → n % 256 ≡ a → octet n ≡ format_nat a
unfolding octet
octet-byte n a e = ap format_nat e

-- An address is printed as its four bytes in the order of the memory, which for an address in network
-- order is the dotted quad: cut at the dots, the text gives their decimal prints back.
pub split-inet_ntoa :
    (a b c d : ℕ)
    → a < 256
    → b < 256
    → c < 256
    → d < 256
    → split (inet_ntoa (little_endian (a ∷ b ∷ c ∷ d ∷ []))) b'.'
      ≡ format_nat a ∷ format_nat b ∷ format_nat c ∷ format_nat d ∷ []
unfolding inet_ntoa little_endian
split-inet_ntoa a b c d ha hb hc hd =
    let n = a + 256 * (b + 256 * (c + 256 * (d + 256 * 0))) in
    four_parts (octet n) (octet (n / 256)) (octet (n / 65536)) (octet (n / 16777216))
      (octet-Lacks n) (octet-Lacks (n / 256)) (octet-Lacks (n / 65536)) (octet-Lacks (n / 16777216))
    ∙ rw
        (
          octet-byte n a (omega arith),
          octet-byte (n / 256) b (omega arith),
          octet-byte (n / 65536) c (omega arith),
          octet-byte (n / 16777216) d (omega arith),
        )
        refl

-- The bytes of the C struct from `saddr` on: the compiler aligns `seq` to four bytes, so that two
-- bytes of padding stand before it.
abbrev pub kernel_segment : Segment → Text
kernel_segment s =
    le_bytes 4 s.source_address
    ++ le_bytes 4 s.destination_address
    ++ le_bytes 2 s.source_port
    ++ le_bytes 2 s.destination_port
    ++ le_bytes 1 s.state
    ++ le_bytes 1 s.tcp_flags
    ++ (0 ∷ 0 ∷ [])
    ++ le_bytes 4 s.seq
    ++ le_bytes 2 s.len
    ++ (0 ∷ 0 ∷ [])

-- The widths of the fields.
abbrev pub IsSegment : Segment → Type 0
IsSegment s =
    (s.source_address < 2 ^ 32)
    × (s.destination_address < 2 ^ 32)
    × (s.source_port < 2 ^ 16)
    × (s.destination_port < 2 ^ 16)
    × (s.state < 256)
    × (s.tcp_flags < 256)
    × (s.seq < 2 ^ 32)
    × (s.len < 2 ^ 16)

-- Of a segment that the kernel sends, with the two bytes of padding before `seq` zero, the tracer reads
-- the addresses, ports, state and flags back, but the sequence number is shifted by two bytes, and the
-- length that it reports is the upper half of the sequence number.
pub read_segment-kernel_segment :
    (s : Segment) (rest : Text)
    → IsSegment s
    → read_segment (kernel_segment s ++ rest)
      ≡ some (
        record s { seq = s.seq % 2 ^ 16 * 2 ^ 16; len = s.seq / 2 ^ 16 },
        le_bytes 2 s.len ++ (0 ∷ 0 ∷ []) ++ rest,
      )
unfolding read_segment
read_segment-kernel_segment s rest (a, b, c, d, e, f, g, h) = ground arith

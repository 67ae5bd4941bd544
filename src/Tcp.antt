-- ===== src/Tcp.antt =====
-- tcp/tcp.go: the names of TCP states and flags.
pub mod Laws
use bpfd.Prelude.{
  ℕ, Option, none, some, List, [], ◌∷◌, ◌++◌, nat_beq, if◌then◌else◌, Eq, nat_eq, Text, codes,
  text_eq,
}
use Prim.Native.Nat.{bit_and}
use bpfd.Strings.{join}

-- the map `States`
unfoldable pub states : ℕ → Option Text
states n =
    if nat_beq n 1
    then some (codes "ESTABLISHED")
    else if nat_beq n 2
    then some (codes "SYNSENT")
    else if nat_beq n 3
    then some (codes "SYNRECV")
    else if nat_beq n 4
    then some (codes "FINWAIT1")
    else if nat_beq n 5
    then some (codes "FINWAIT2")
    else if nat_beq n 6
    then some (codes "TIMEWAIT")
    else if nat_beq n 7
    then some (codes "CLOSE")
    else if nat_beq n 8
    then some (codes "CLOSEWAIT")
    else if nat_beq n 9
    then some (codes "LASTACK")
    else if nat_beq n 10
    then some (codes "LISTEN")
    else if nat_beq n 11
    then some (codes "CLOSING")
    else if nat_beq n 12
    then some (codes "NEWSYNRECV")
    else none

-- `if (flags & header) != 0 { a = append(a, name) }`
abbrev append_flag : ℕ → ℕ → Text → List Text → List Text
append_flag flags header name a = if nat_beq (bit_and flags header) 0 then a else a ++ name ∷ []

unfoldable pub flag_names : ℕ → List Text
flag_names flags =
    let a0 : List Text = [] in
    let a1 = append_flag flags 0x01 (codes "FIN") a0 in
    let a2 = append_flag flags 0x02 (codes "SYN") a1 in
    let a3 = append_flag flags 0x04 (codes "RST") a2 in
    let a4 = append_flag flags 0x08 (codes "PSH") a3 in
    let a5 = append_flag flags 0x10 (codes "ACK") a4 in
    let a6 = append_flag flags 0x20 (codes "URG") a5 in
    let a7 = append_flag flags 0x40 (codes "ECE") a6 in append_flag flags 0x80 (codes "CWR") a7

-- `FlagsToString`
unfoldable pub flags_to_string : ℕ → Text
unfolding flag_names join
flags_to_string flags = join (flag_names flags) (codes " | ")

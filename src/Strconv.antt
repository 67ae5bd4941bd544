-- ===== src/Strconv.antt =====
-- What the program uses of Go's package `strconv`: `ParseInt(s, 10, 0)` and `Atoi` on a 64-bit
-- machine, and the conversion of an `int` to `uint32`.
pub mod Laws
use bpfd.Prelude.{
  ℕ, zero, suc, ◌+◌, ◌-◌, ◌*◌, ◌%◌, ◌^◌, Bool, true, false, not, ◌&&◌, [], ◌∷◌, ltb, leb, nat_beq,
  if◌then◌else◌, Eq, nat_eq, Result, ok, err, ◌>>=◌, ℤ, pos, negsuc, Text, text_eq,
}

pub data NumError : Type 0 where
  syntax range : NumError

abbrev pub is_digit : ℕ → Bool
is_digit c = leb b'0' c && leb c b'9'

-- the loop of `ParseUint`, which computes in uint64
unfoldable pub scan : Text → ℕ → Result NumError ℕ
scan [] n = ok n
scan (c ∷ s) n =
    if not (is_digit c)
    then err syntax
    else if leb (2 ^ 64) (n * 10 + (c - b'0'))
    then err range
    else scan s (n * 10 + (c - b'0'))

unfoldable pub parse_uint : Text → Result NumError ℕ
unfolding scan
parse_uint [] = err syntax
parse_uint (c ∷ s) = scan (c ∷ s) 0

abbrev pub negate : ℕ → ℤ
negate zero = pos 0
negate (suc n) = negsuc n

abbrev pub signed : Bool → ℕ → Result NumError ℤ
signed true n = if ltb (2 ^ 63) n then err range else ok (negate n)
signed false n = if leb (2 ^ 63) n then err range else ok (pos n)

-- `ParseInt(s, 10, 0)`, and `Atoi(s)`
unfoldable pub parse_int : Text → Result NumError ℤ
parse_int [] = err syntax
parse_int (c ∷ s) =
    if nat_beq c b'+'
    then parse_uint s >>= signed false
    else if nat_beq c b'-'
    then parse_uint s >>= signed true
    else parse_uint (c ∷ s) >>= signed false

-- `uint32(n)`
unfoldable pub to_uint32 : ℤ → ℕ
to_uint32 (pos n) = n % 2 ^ 32
to_uint32 (negsuc n) = 2 ^ 32 - 1 - n % 2 ^ 32

-- ===== src/Strconv/Laws.antt =====
-- Reading back the decimal print of a number.
use bpfd.Prelude.{
  ℕ, zero, suc, ◌+◌, ◌/◌, ◌%◌, ◌^◌, ◌<◌, ◌≡◌, refl, ◌∙◌, ◌≢◌, inl, inr, true, false, [], ◌∷◌, arith,
  nat_beq, Bool-cases, nat_eq, ok, ◌>>=◌, ℤ, pos, negsuc, Text, text_eq,
}
use bpfd.Strings.{digits, format_nat, format_int}
use bpfd.Strings.Decimal.{AllDigits, format_nat-AllDigits, format_nat-ne-nil}
use bpfd.Strconv.{scan, parse_uint, parse_int, signed}

scan_step : (n : ℕ) (out : Text) → n < 2 ^ 64 → scan ((b'0' + n % 10) ∷ out) (n / 10) ≡ scan out n
unfolding scan
scan_step n out h = ground arith

scan_last : (n : ℕ) (out : Text) → n < 10 → scan ((b'0' + n % 10) ∷ out) 0 ≡ scan out n
unfolding scan
scan_last n out h = ground arith

scan-digits : (f n : ℕ) (out : Text) → n < f → n < 2 ^ 64 → scan (digits f n out) 0 ≡ scan out n
unfolding digits
scan-digits zero n out h fits = elim h [ ]
scan-digits (suc f) n out h fits = elim (Bool-cases (nat_beq (n / 10) 0)) [
  | inl e ↦ rw e (scan_last n out (ground arith))
  | inr e ↦ rw e (scan-digits f (n / 10) _ (ground arith) (omega arith) ∙ scan_step n out fits)
]

parse_uint-scan : (s : Text) → s ≢ [] → parse_uint s ≡ scan s 0
unfolding parse_uint
parse_uint-scan [] h = absurd (h refl)
parse_uint-scan (c ∷ s) h = refl

pub parse_uint-format_nat : (n : ℕ) → n < 2 ^ 64 → parse_uint (format_nat n) ≡ ok n
unfolding format_nat scan
parse_uint-format_nat n h =
    parse_uint-scan _ (format_nat-ne-nil n) ∙ scan-digits (suc n) n [] (omega arith) h

in_range : (n : ℕ) → n < 2 ^ 63 → signed false n ≡ ok (pos n)
in_range n h = ground arith

in_range_negative : (n : ℕ) → n < 2 ^ 63 → signed true (suc n) ≡ ok (negsuc n)
in_range_negative n h = ground arith

unsigned :
    (s : Text) (n : ℕ)
    → AllDigits s
    → s ≢ []
    → parse_uint s ≡ ok n
    → n < 2 ^ 63
    → parse_int s ≡ ok (pos n)
unfolding parse_int
unsigned [] n d ne h fits = absurd (ne refl)
unsigned (c ∷ s) n (dc, d) ne h fits = ground (arith, in_range n fits)

-- Every number that an int64 holds is read back from its print.
pub parse_int-format_nat : (n : ℕ) → n < 2 ^ 63 → parse_int (format_nat n) ≡ ok (pos n)
parse_int-format_nat n h =
    unsigned (format_nat n) n (format_nat-AllDigits n) (format_nat-ne-nil n)
      (parse_uint-format_nat n (omega arith)) h

parse_int_minus : (s : Text) → parse_int (b'-' ∷ s) ≡ (parse_uint s >>= signed true)
unfolding parse_int
parse_int_minus s = refl

format_int-negsuc : (n : ℕ) → format_int (negsuc n) ≡ b'-' ∷ format_nat (suc n)
unfolding format_int
format_int-negsuc n = refl

format_int-pos : (n : ℕ) → format_int (pos n) ≡ format_nat n
unfolding format_int
format_int-pos n = refl

-- The integers of Go's 64-bit `int`.
abbrev pub IsInt64 : ℤ → Type 0
IsInt64 (pos n) = n < 2 ^ 63
IsInt64 (negsuc n) = n < 2 ^ 63

-- Every int64 is read back from its print.
pub parse_int-format_int : (z : ℤ) → IsInt64 z → parse_int (format_int z) ≡ ok z
parse_int-format_int (pos n) h = rw format_int-pos (parse_int-format_nat n h)
parse_int-format_int (negsuc n) h =
    rw (format_int-negsuc, parse_int_minus, parse_uint-format_nat (suc n) (omega arith))
      (in_range_negative n h)

-- ===== src/Strings/Decimal.antt =====
-- Decimal prints are not empty and made of digits.
use bpfd.Prelude.{
  ℕ, zero, suc, ◌/◌, ◌≤◌, ◌<◌, ◌≡◌, refl, ◌≢◌, inl, inr, false, [], ◌∷◌, arith, nat_beq, Bool-cases,
  nat_eq, All, ℤ, pos, negsuc, Text, codes, text_eq,
}
use bpfd.Strings.{digits, format_nat, format_int, is_space, blank}
use bpfd.Strings.Trim.{NoBlanks}
use bpfd.Strings.Split.{Lacks}

abbrev pub AllDigits : Text → Type 0
AllDigits = All (λ c. (b'0' ≤ c) × (c ≤ b'9'))

digits-AllDigits : (f n : ℕ) (out : Text) → AllDigits out → AllDigits (digits f n out)
unfolding digits
digits-AllDigits zero n out h = h
digits-AllDigits (suc f) n out h = elim (Bool-cases (nat_beq (n / 10) 0)) [
  | inl e ↦ rw e ((omega arith, omega arith), h)
  | inr e ↦ rw e (digits-AllDigits f (n / 10) _ ((omega arith, omega arith), h))
]

pub format_nat-AllDigits : (n : ℕ) → AllDigits (format_nat n)
unfolding format_nat
format_nat-AllDigits n = digits-AllDigits (suc n) n [] tt

digits-ne-nil : (f n : ℕ) (out : Text) → out ≢ [] → digits f n out ≢ []
unfolding digits
digits-ne-nil zero n out h = h
digits-ne-nil (suc f) n out h = elim (Bool-cases (nat_beq (n / 10) 0)) [
  | inl e ↦ rw e (λ q. cc)
  | inr e ↦ rw e (digits-ne-nil f (n / 10) _ (λ q. cc))
]

pub format_nat-ne-nil : (n : ℕ) → format_nat n ≢ []
unfolding format_nat digits
format_nat-ne-nil n = elim (Bool-cases (nat_beq (n / 10) 0)) [
  | inl e ↦ rw e (λ q. cc)
  | inr e ↦ rw e (digits-ne-nil n (n / 10) _ (λ q. cc))
]

format_samples : format_nat 4294967295 ≡ codes "4294967295"
unfolding format_nat
format_samples = refl

pub AllDigits-Lacks : (c : ℕ) (s : Text) → c < b'0' → AllDigits s → Lacks c s
AllDigits-Lacks c [] h a = tt
AllDigits-Lacks c (d ∷ s) h ((lo, hi), a) =
    (λ e. absurd (omega (arith, e)), AllDigits-Lacks c s h a)

pub AllDigits-NoBlanks : (s : Text) → AllDigits s → NoBlanks s
unfolding is_space
AllDigits-NoBlanks [] a = tt
AllDigits-NoBlanks (d ∷ s) ((lo, hi), a) = (ground arith, AllDigits-NoBlanks s a)

pub format_int-ne-nil : (z : ℤ) → format_int z ≢ []
unfolding format_int
format_int-ne-nil (pos n) = format_nat-ne-nil n
format_int-ne-nil (negsuc n) = λ q. cc

pub format_int-NoBlanks : (z : ℤ) → NoBlanks (format_int z)
unfolding format_int is_space
format_int-NoBlanks (pos n) = AllDigits-NoBlanks (format_nat n) (format_nat-AllDigits n)
format_int-NoBlanks (negsuc n) = (refl, AllDigits-NoBlanks _ (format_nat-AllDigits (suc n)))

not_blank : (c : ℕ) → is_space c ≡ false → c ≢ blank
unfolding is_space
not_blank c h e = absurd (ground arith)

pub NoBlanks-Lacks : (s : Text) → NoBlanks s → Lacks blank s
NoBlanks-Lacks [] h = tt
NoBlanks-Lacks (c ∷ s) (hc, h) = (not_blank c hc, NoBlanks-Lacks s h)

-- ===== src/Strings/Trim.antt =====
-- Laws of `strings.TrimSpace`.
use bpfd.Prelude.{
  ℕ, ◌≡◌, refl, sym, ap, ◌∙◌, ◌≢◌, inl, inr, true, false, [], ◌∷◌, ◌++◌, append-nil, arith,
  Bool-cases, nat_eq, is_empty, All, Text, text_eq,
}
use bpfd.Strings.{is_space, trim_left, trim_right, trim_space}

trim_right_idem : (s : Text) → trim_right (trim_right s) ≡ trim_right s
unfolding trim_right
trim_right_idem [] = refl
trim_right_idem (c ∷ s) = ground (arith, trim_right_idem s)

-- A text with no blank in front.
pub data IsLeftTrimmed : Text → Type 0 where
  nil : IsLeftTrimmed []
  cons : {c : ℕ} {s : Text} → is_space c ≡ false → IsLeftTrimmed (c ∷ s)

pub trim_left-IsLeftTrimmed : (s : Text) → IsLeftTrimmed (trim_left s)
unfolding trim_left
trim_left-IsLeftTrimmed [] = nil
trim_left-IsLeftTrimmed (c ∷ s) = elim (Bool-cases (is_space c)) [
  | inl e ↦ rw e (trim_left-IsLeftTrimmed s)
  | inr e ↦ rw e (cons e)
]

pub trim_left_fix : {s : Text} → IsLeftTrimmed s → trim_left s ≡ s
unfolding trim_left
trim_left_fix nil = refl
trim_left_fix (cons e) = rw e

pub trim_right-IsLeftTrimmed : {s : Text} → IsLeftTrimmed s → IsLeftTrimmed (trim_right s)
unfolding trim_right
trim_right-IsLeftTrimmed nil = nil
trim_right-IsLeftTrimmed (cons {c} {s} e) = elim (Bool-cases (is_empty (trim_right s))) [
  | inl b ↦ rw (b, e) (cons e)
  | inr b ↦ rw b (cons e)
]

-- Trimming twice is trimming once.
pub trim_space_idem : (s : Text) → trim_space (trim_space s) ≡ trim_space s
unfolding trim_space
trim_space_idem s =
    ap trim_right (trim_left_fix (trim_right-IsLeftTrimmed (trim_left-IsLeftTrimmed s)))
    ∙ trim_right_idem (trim_left s)

-- A text that trims to nothing is made of blanks.
pub All-is_space : (s : Text) → is_empty (trim_space s) ≡ true → All (λ c. is_space c ≡ true) s
unfolding trim_space
All-is_space [] h = tt
All-is_space (c ∷ s) h = elim (Bool-cases (is_space c)) [
  | inl e ↦ (e, All-is_space s (rw e at h))
  | inr e ↦ absurd (kept c s e h)
]
  where
    kept : (c : ℕ) (s : Text) → is_space c ≡ false → is_empty (trim_space (c ∷ s)) ≡ true → ⊥
    kept c s e h = ground arith

abbrev pub NoBlanks : Text → Type 0
NoBlanks = All (λ c. is_space c ≡ false)

is_empty-append : (p r : Text) → p ≢ [] → is_empty (p ++ r) ≡ false
is_empty-append [] r h = absurd (h refl)
is_empty-append (c ∷ p) r h = refl

-- What stands behind a word that holds no blank is trimmed alone.
pub trim_right-append : (p r : Text) → NoBlanks p → trim_right (p ++ r) ≡ p ++ trim_right r
unfolding trim_right
trim_right-append [] r h = refl
trim_right-append (c ∷ p) r (hc, h) = ground (arith, trim_right-append p r h)

-- A text with no blank is left alone.
pub trim_space_fix : (s : Text) → NoBlanks s → trim_space s ≡ s
unfolding trim_space
trim_space_fix [] h = refl
trim_space_fix (c ∷ s) (hc, h) =
    ap trim_right (trim_left_fix (cons {c = c} {s = s} hc))
    ∙ ap trim_right (sym (append-nil (c ∷ s)))
    ∙ trim_right-append (c ∷ s) [] (hc, h)
    ∙ append-nil (c ∷ s)

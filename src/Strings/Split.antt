-- ===== src/Strings/Split.antt =====
-- Laws of `strings.Split` and `strings.Join` at a separator of one character.
use bpfd.Prelude.{
  ℕ, ◌≡◌, refl, ap, ◌∙◌, ◌≢◌, inl, inr, List, [], ◌∷◌, ◌++◌, append-nil, arith, nat_beq, Bool-cases,
  nat_eq, All, Text, text_eq,
}
use bpfd.Strings.{split, separated, join, on_head, first_part}

abbrev pub Lacks : ℕ → Text → Type 0
Lacks sep = All (λ c. c ≢ sep)

pub split-Lacks : (s : Text) (sep : ℕ) → Lacks sep s → split s sep ≡ s ∷ []
unfolding split
split-Lacks [] sep h = refl
split-Lacks (c ∷ s) sep (hc, hs) = ground (arith, split-Lacks s sep hs)

-- The first part ends at the first separator.
pub split-append :
    (p rest : Text) (sep : ℕ) → Lacks sep p → split (p ++ sep ∷ rest) sep ≡ p ∷ split rest sep
unfolding split
split-append [] rest sep h = ground arith
split-append (c ∷ p) rest sep (hc, hp) = ground (arith, split-append p rest sep hp)

pub split-separated :
    (p : Text) (ps : List Text) (sep : ℕ)
    → All (Lacks sep) (p ∷ ps)
    → split (p ++ separated ps (sep ∷ [])) sep ≡ p ∷ ps
unfolding separated
split-separated p [] sep (hp, hps) = rw append-nil (split-Lacks p sep hp)
split-separated p (q ∷ ps) sep (hp, hps) =
    split-append p (q ++ separated ps (sep ∷ [])) sep hp
    ∙ ap (λ t. p ∷ t) (split-separated q ps sep hps)

pub split-join :
    (ps : List Text) (sep : ℕ) → ps ≢ [] → All (Lacks sep) ps → split (join ps (sep ∷ [])) sep ≡ ps
unfolding join
split-join [] sep h _ = absurd (h refl)
split-join (p ∷ ps) sep _ h = split-separated p ps sep h

split-ne-nil : (s : Text) (sep : ℕ) → split s sep ≢ []
unfolding split
split-ne-nil [] sep = λ q. cc
split-ne-nil (c ∷ s) sep = elim (Bool-cases (nat_beq c sep)) [
  | inl e ↦ rw e (λ q. cc)
  | inr e ↦ rw e (on_head-ne-nil c (split s sep) (split-ne-nil s sep))
]
  where
    on_head-ne-nil : (c : ℕ) (ps : List Text) → ps ≢ [] → on_head c ps ≢ []
    on_head-ne-nil c [] h = h
    on_head-ne-nil c (p ∷ ps) h = λ q. cc

first_part-on_head :
    (c : ℕ) (ps : List Text) → ps ≢ [] → first_part (on_head c ps) ≡ c ∷ first_part ps
first_part-on_head c [] h = absurd (h refl)
first_part-on_head c (p ∷ ps) h = refl

-- The first part begins with what stands before any separator.
pub first_part-split :
    (p r : Text) (sep : ℕ)
    → Lacks sep p
    → first_part (split (p ++ r) sep) ≡ p ++ first_part (split r sep)
unfolding split
first_part-split [] r sep h = refl
first_part-split (c ∷ p) r sep (hc, h) = ground (
  arith,
  first_part-split p r sep h,
  first_part-on_head c (split (p ++ r) sep) (split-ne-nil (p ++ r) sep),
)

pub first_part_at : (r : Text) (sep : ℕ) → first_part (split (sep ∷ r) sep) ≡ []
unfolding split
first_part_at r sep = ground arith

-- ===== src/Strings/Search.antt =====
-- What `strings.Contains` and `strings.HasPrefix` decide.
use bpfd.Prelude.{◌≡◌, refl, true, [], ◌∷◌, ◌++◌, arith, nat_eq, Text, text_eq}
use bpfd.Strings.{has_prefix, contains}

pub has_prefix-append : (p rest : Text) → has_prefix (p ++ rest) p ≡ true
unfolding has_prefix
has_prefix-append [] rest = refl
has_prefix-append (c ∷ p) rest = ground (arith, has_prefix-append p rest)

pub has_prefix_sound : (s p : Text) → has_prefix s p ≡ true → (rest : Text) × (s ≡ p ++ rest)
unfolding has_prefix
has_prefix_sound s [] h = (s, refl)
has_prefix_sound [] (d ∷ p) h = cc
has_prefix_sound (c ∷ s) (d ∷ p) h =
    let (rest, e) = has_prefix_sound s p (ground arith) in (rest, ground arith)

pub contains_append : (pre sub post : Text) → contains (pre ++ sub ++ post) sub ≡ true
unfolding contains
contains_append [] [] [] = refl
contains_append [] [] (c ∷ post) = refl
contains_append [] (c ∷ sub) post = ground (arith, has_prefix-append (c ∷ sub) post)
contains_append (c ∷ pre) sub post = ground (arith, contains_append pre sub post)

has_prefix_prefix : (s p q : Text) → has_prefix s (p ++ q) ≡ true → has_prefix s p ≡ true
unfolding has_prefix
has_prefix_prefix s [] q h = refl
has_prefix_prefix [] (d ∷ p) q h = cc
has_prefix_prefix (c ∷ s) (d ∷ p) q h = ground (arith, has_prefix_prefix s p q)

-- A text that holds a word holds its beginnings.
pub contains_prefix : (s p q : Text) → contains s (p ++ q) ≡ true → contains s p ≡ true
unfolding contains
contains_prefix [] p q h = has_prefix_prefix [] p q h
contains_prefix (c ∷ s) p q h = ground (arith, contains_prefix s p q, has_prefix_prefix (c ∷ s) p q)

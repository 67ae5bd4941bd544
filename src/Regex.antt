-- ===== src/Regex.antt =====
-- What the program uses of Go's package `regexp`: classes, literals, concatenation, alternation and
-- greedy repetition of a class. Go prefers, among the matches at one position, the one that a
-- backtracking search finds first; `run` lists the matches in that order.
use bpfd.Prelude.{
  ℕ, zero, suc, Bool, not, ◌&&◌, ◌||◌, Option, none, some, List, [], ◌∷◌, ◌++◌, map, leb, nat_beq,
  if◌then◌else◌, nat_eq, length, Text, text_eq,
}
use mathlib.Core.List.{map, flat_map}

pub data Regex : Type 0 where
  one : (ℕ → Bool) → Regex
  literal : Text → Regex
  many : (ℕ → Bool) → Regex
  at_most : ℕ → (ℕ → Bool) → Regex
  text_end : Regex
  seq : Regex → Regex → Regex
  alt : Regex → Regex → Regex

-- `.`
abbrev pub any_char : ℕ → Bool
any_char c = not (nat_beq c 10)

-- `[[:alnum:]\-]`
abbrev pub id_char : ℕ → Bool
id_char c =
    (leb b'0' c && leb c b'9')
    || (leb b'A' c && leb c b'Z')
    || (leb b'a' c && leb c b'z')
    || nat_beq c b'-'

abbrev pub push : ℕ → Text × Text → Text × Text
push c m = (c ∷ m.0, m.1)

-- up to `n` characters of a class, longest first
unfoldable pub spans : ℕ → (ℕ → Bool) → Text → List (Text × Text)
spans zero p s = ([], s) ∷ []
spans (suc n) p [] = ([], []) ∷ []
spans (suc n) p (c ∷ s) =
    let longer = map (push c) (spans n p s) in
    if p c then longer ++ ([], c ∷ s) ∷ [] else ([], c ∷ s) ∷ []

unfoldable pub strip : Text → Text → Option Text
strip [] s = some s
strip (d ∷ p) [] = none
strip (d ∷ p) (c ∷ s) = if nat_beq c d then strip p s else none

-- The matches at the start of a text, each with what follows it.
unfoldable pub run : Regex → Text → List (Text × Text)
unfolding spans strip flat_map
run (one p) [] = []
run (one p) (c ∷ s) = if p c then (c ∷ [], s) ∷ [] else []
run (literal w) s = elim (strip w s) [ none ↦ [] | some rest ↦ (w, rest) ∷ [] ]
run (many p) s = spans (length s) p s
run (at_most n p) s = spans n p s
run text_end [] = ([], []) ∷ []
run text_end (c ∷ s) = []
run (seq a b) s = flat_map (λ m. map (λ k. (m.0 ++ k.0, k.1)) (run b m.1)) (run a s)
run (alt a b) s = run a s ++ run b s

-- The first match that a test accepts.
unfoldable pub first_match : (Text × Text → Option Text) → List (Text × Text) → Option Text
first_match f [] = none
first_match f (m ∷ ms) = let rest = first_match f ms in elim (f m) [ none ↦ rest | some t ↦ some t ]

-- ===== src/Proc/ContainerId/Laws.antt =====
-- What `getContainerID` returns.
use bpfd.Prelude.{
  ℕ, zero, suc, ◌≤◌, ◌≡◌, refl, sym, ◌⊎◌, inl, inr, Bool, true, false, Option, some, List, [], ◌∷◌,
  ◌++◌, map, arith, if-true, if-false, subst, if◌then◌else◌, Bool-cases, Option-cases, nat_eq,
  length, is_empty, All, All-append, Text, codes, text_eq,
}
use mathlib.Core.List.{map, flat_map}
use bpfd.Strings.{trim_space, split, replace_all, newline}
use bpfd.Regex.{id_char, spans, push, run, first_match}
use bpfd.Proc.ContainerId.{
  id_prefix, id_body, id_suffix, accept_body, id_at, find_id, first_id, id_in,
}

-- Between one and 64 characters, each a letter, a digit or a dash.
pub record IsId (t : Text) : Type 0 where
  pub chars : All (λ c. id_char c ≡ true) t
  pub nonempty : 1 ≤ length t
  pub bounded : length t ≤ 64

abbrev Span : ℕ → (ℕ → Bool) → Text × Text → Type 0
Span n p m = All (λ c. p c ≡ true) m.0 × (length m.0 ≤ n)

map-push-Span :
    (n : ℕ) (p : ℕ → Bool) (c : ℕ) (ms : List (Text × Text))
    → p c ≡ true
    → All (Span n p) ms
    → All (Span (suc n) p) (map (push c) ms)
map-push-Span n p c [] h a = tt
map-push-Span n p c (m ∷ ms) h (x, a) = (((h, x.0), omega arith), map-push-Span n p c ms h a)

spans-Span : (n : ℕ) (p : ℕ → Bool) (s : Text) → All (Span n p) (spans n p s)
unfolding spans
spans-Span zero p s = ((tt, omega arith), tt)
spans-Span (suc n) p [] = ((tt, omega arith), tt)
spans-Span (suc n) p (c ∷ s) = elim (Bool-cases (p c)) [
  | inl e ↦ subst (All (Span (suc n) p)) (sym (if-true _ _ e)) (
      All-append (Span (suc n) p) (map (push c) (spans n p s)) (([], c ∷ s) ∷ [])
        (map-push-Span n p c (spans n p s) e (spans-Span n p s)) ((tt, omega arith), tt))
  | inr e ↦ subst (All (Span (suc n) p)) (sym (if-false _ _ e)) ((tt, omega arith), tt)
]

abbrev IsBody : Text × Text → Type 0
IsBody m = IsId m.0

map-IsBody :
    (c : ℕ) (ms : List (Text × Text))
    → id_char c ≡ true
    → All (Span 63 id_char) ms
    → All IsBody (map (λ k. ((c ∷ []) ++ k.0, k.1)) ms ++ [])
map-IsBody c [] h a = tt
map-IsBody c (m ∷ ms) h (x, a) = (
  record { chars = (h, x.0); nonempty = omega arith; bounded = omega arith },
  map-IsBody c ms h a,
)

IsBody-if :
    (b : Bool) (c : ℕ) (s : Text)
    → id_char c ≡ b
    → All IsBody (
        flat_map {A = Text × Text} {B = Text × Text}
          (λ m.
            map {A = Text × Text} {B = Text × Text} (λ k. (m.0 ++ k.0, k.1)) (spans 63 id_char m.1))
          (if b then (c ∷ [], s) ∷ [] else []))
unfolding flat_map
IsBody-if true c s e = map-IsBody c (spans 63 id_char s) e (spans-Span 63 id_char s)
IsBody-if false c s e = tt

IsBody-id_body : (s : Text) → All IsBody (run id_body s)
unfolding run id_body
IsBody-id_body [] = tt
IsBody-id_body (c ∷ s) = IsBody-if (id_char c) c s refl

module _ (Q : Text × Text → Type 0) (P : Text → Type 0) (f : Text × Text → Option Text) where
  first_match_sound :
      (ms : List (Text × Text)) (t : Text)
      → ((m : Text × Text) → Q m → f m ≡ some t → P t)
      → All Q ms
      → first_match f ms ≡ some t
      → P t
  unfolding first_match
  first_match_sound [] t h a e = absurd (cc e)
  first_match_sound (m ∷ ms) t h (q, a) e = elim (Option-cases (f m)) [
    | inl n ↦ first_match_sound ms t h a (ground arith)
    | inr (u, j) ↦ h m q (ground arith)
  ]

accept_body_sound : (m : Text × Text) (t : Text) → IsBody m → accept_body m ≡ some t → IsId t
accept_body_sound m t h e = elim (Bool-cases (is_empty (run id_suffix m.1))) [
  | inl b ↦ absurd (cc (rw b at e))
  | inr b ↦ let p : some m.0 ≡ some t = rw b at e in let q : m.0 ≡ t = cc in subst IsId q h
]

All-true {ℓ} : {A : Type ℓ} (xs : List A) → All (λ _. Unit {0}) xs
All-true [] = tt
All-true (x ∷ xs) = (tt, All-true xs)

id_at-IsId : (s t : Text) → id_at s ≡ some t → IsId t
unfolding id_at
id_at-IsId s t e =
    first_match_sound (λ _. Unit {0}) IsId (λ m. first_match accept_body (run id_body m.1))
      (run id_prefix s) t
      (λ m _ q.
        first_match_sound IsBody IsId accept_body (run id_body m.1) t
          (λ k h j. accept_body_sound k t h j) (IsBody-id_body m.1) q)
      (All-true (run id_prefix s)) e

find_id-IsId : (s t : Text) → find_id s ≡ some t → IsId t
unfolding find_id
find_id-IsId [] t e = id_at-IsId [] t e
find_id-IsId (c ∷ s) t e = elim (Option-cases (id_at (c ∷ s))) [
  | inl n ↦ find_id-IsId s t (ground arith)
  | inr (u, j) ↦ id_at-IsId (c ∷ s) t (ground arith)
]

abbrev pub IsIdOrEmpty : Text → Type 0
IsIdOrEmpty t = (t ≡ []) ⊎ IsId t

first_id-IsId : (lines : List Text) → IsIdOrEmpty (first_id lines)
unfolding first_id
first_id-IsId [] = inl refl
first_id-IsId (line ∷ lines) = elim (Option-cases (find_id line)) [
  | inl n ↦ rw (n, first_id) (first_id-IsId lines)
  | inr (t, e) ↦ rw (e, first_id) (inr (find_id-IsId line t e))
]

-- Whatever a cgroup file holds, `getContainerID` returns the empty text or 1 to 64 letters, digits
-- and dashes.
pub id_in-IsId : (input : Text) → IsIdOrEmpty (id_in input)
unfolding id_in
id_in-IsId input = elim (Bool-cases (is_empty (trim_space input))) [
  | inl e ↦ rw e (inl refl)
  | inr e ↦ rw e (first_id-IsId (split (replace_all input (codes "\\x2d") (codes "-")) newline))
]

docker_line : id_in (codes "4:memory:/docker/abc-9\n") ≡ codes "abc-9"
unfolding id_in
docker_line = refl

kube_line : id_in (codes "11:x:/kubepods/besteffort/pod1/abc") ≡ codes "abc"
unfolding id_in
kube_line = refl

rkt_line : id_in (codes "1:x:/machine.slice/machine-rkt\\x2dbfb7.scope") ≡ codes "bfb7"
unfolding id_in
rkt_line = refl

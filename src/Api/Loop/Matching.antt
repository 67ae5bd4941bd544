-- ===== src/Api/Loop/Matching.antt =====
-- The actions that the goroutine of a tracer runs for an event, as members of the list: those of the
-- rules that match.
use bpfd.Prelude.{
  ◌≡◌, refl, sym, ap, ◌∙◌, inl, inr, true, List, [], ◌∷◌, subst, Bool-cases, ◌==◌, nat_eq, In,
  In-cons, here, there, In-append, In-append_right, In-append_left, any, any_sound, any_complete,
  Text, text_beq_iff, text_eq,
}
use bpfd.Grpc.{Rule, Event}
use bpfd.Rules.{matches}
use bpfd.Api.{Server}
use bpfd.Api.Loop.{run_actions}
use bpfd.Api.Loop.Laws.{matching, actions_of, respond}

In-run_actions :
    (known wanted : List Text) (e x : Event) (a : Text)
    → In (a, x) (run_actions known wanted e)
    → In a known × In a wanted × (x ≡ e)
unfolding run_actions
In-run_actions known [] e x a i = elim i [ ]
In-run_actions known (w ∷ ws) e x a i = elim (Bool-cases (any (λ k. k == w) known)) [
  | inl t ↦
      let (b, m, q) = any_sound (λ k. k == w) known t in
      elim (In-cons (rw (t, run_actions) at i)) [
        | inl j ↦
            let ja : a ≡ w = ap (λ r. r.0) j in
            let bw : b ≡ w = (text_beq_iff b w).0 q in
            (subst (λ c. In c known) (bw ∙ sym ja) m, here ja, ap (λ r. r.1) j)
        | inr j ↦ let (c, n, y) = In-run_actions known ws e x a j in (c, there n, y)
      ]
  | inr f ↦
      let (k, m, q) = In-run_actions known ws e x a (rw (f, run_actions) at i) in (k, there m, q)
]

pub In-matching :
    (e : Event) (d : List (Text × Text)) (rules : List (Text × Rule)) (r : Rule)
    → In r (matching e d rules)
    → (n : Text) × In (n, r) rules × (matches r d e.container_runtime ≡ true)
In-matching e d [] r i = elim i [ ]
In-matching e d ((m, q) ∷ rules) r i = elim (Bool-cases (matches q d e.container_runtime)) [
  | inl t ↦ elim (In-cons (rw t at i)) [
    | inl p ↦ (m, here (ap (λ k. (m, k)) p), rw p t)
    | inr j ↦ let (n, k, y) = In-matching e d rules r j in (n, there k, y)
  ]
  | inr f ↦ let (n, k, y) = In-matching e d rules r (rw f at i) in (n, there k, y)
]

matching-In :
    (e : Event) (d : List (Text × Text)) (rules : List (Text × Rule)) (n : Text) (r : Rule)
    → In (n, r) rules
    → matches r d e.container_runtime ≡ true
    → In r (matching e d rules)
matching-In e d [] n r i t = elim i [ ]
matching-In e d ((m, q) ∷ rules) n r i t = elim (In-cons i) [
  | inl p ↦
      let k : r ≡ q = ap (λ z. z.1) p in
      rw (let y : matches q d e.container_runtime ≡ true = rw⁻¹ k t in y) (here k)
  | inr j ↦ elim (Bool-cases (matches q d e.container_runtime)) [
    | inl y ↦ rw y (there (matching-In e d rules n r j t))
    | inr f ↦ rw f (matching-In e d rules n r j t)
  ]
]

pub In-actions_of :
    (known : List Text) (e x : Event) (rs : List Rule) (a : Text)
    → In (a, x) (actions_of known e rs)
    → (x ≡ e) × In a known × ((r : Rule) × In r rs × In a r.actions)
In-actions_of known e x [] a i = elim i [ ]
In-actions_of known e x (r ∷ rs) a i = elim (In-append (run_actions known r.actions e) _ i) [
  | inl j ↦ let (k, m, q) = In-run_actions known r.actions e x a j in (q, k, (r, here refl, m))
  | inr j ↦ let (q, k, (r', m, w)) = In-actions_of known e x rs a j in (q, k, (r', there m, w))
]

run_actions-In :
    (known wanted : List Text) (e : Event) (a : Text)
    → In a known
    → In a wanted
    → In (a, e) (run_actions known wanted e)
unfolding run_actions
run_actions-In known [] e a k i = elim i [ ]
run_actions-In known (w ∷ ws) e a k i = elim (In-cons i) [
  | inl p ↦
      rw (any_complete (λ b. b == w) a known k ((text_beq_iff a w).1 p)) (here (ap (λ b. (b, e)) p))
  | inr j ↦ elim (Bool-cases (any (λ b. b == w) known)) [
    | inl t ↦ rw t (there (run_actions-In known ws e a k j))
    | inr f ↦ rw f (run_actions-In known ws e a k j)
  ]
]

actions_of-In :
    (known : List Text) (e : Event) (rs : List Rule) (r : Rule) (a : Text)
    → In a known
    → In r rs
    → In a r.actions
    → In (a, e) (actions_of known e rs)
actions_of-In known e [] r a k i w = elim i [ ]
actions_of-In known e (q ∷ rs) r a k i w = elim (In-cons i) [
  | inl p ↦ In-append_left _ (run_actions-In known q.actions e a k (rw p at w))
  | inr j ↦ In-append_right (run_actions known q.actions e) _ (actions_of-In known e rs r a k j w)
]

pub respond-In :
    (e : Event) (d : List (Text × Text)) (rules : List (Text × Rule)) (s : Server) (n : Text)
    (r : Rule) (a : Text)
    → In (n, r) rules
    → matches r d e.container_runtime ≡ true
    → In a r.actions
    → In a s.actions
    → In (a, e) (respond e d rules s).1
respond-In e d [] s n r a i t w k = elim i [ ]
respond-In e d (q ∷ rules) s n r a i t w k =
    actions_of-In s.actions e (matching e d (q ∷ rules)) r a k (matching-In e d (q ∷ rules) n r i t)
      w

-- ===== src/Rules/Match.antt =====
-- `Match` decides the conditions that a rule states.
use bpfd.Prelude.{
  ◌≡◌, refl, ap, ◌↔◌, ◌⊎◌, inl, inr, Bool, true, false, ◌&&◌, ◌||◌, some, List, [], ◌∷◌, arith,
  if-true, if◌then◌else◌, Bool-cases, Option-cases, ◌==◌, nat_eq, is_empty, is_empty_sound, In,
  here, there, any, any_sound, any_complete, Text, text_beq, text_beq_refl, text_beq_iff, text_eq,
}
use bpfd.Strings.{contains}
use bpfd.Grpc.{Rule, Filter}
use bpfd.GoMap.{lookup}
use bpfd.Rules.{returned, matched, unmatched, scan_runtimes, match_data, matches}

scan_runtimes_lem :
    (nf : Bool) (p : Text) (rs : List Text)
    → scan_runtimes nf p rs
      ≡ (if any (λ r. p == r) rs then (if nf then returned else matched) else unmatched)
unfolding scan_runtimes
scan_runtimes_lem nf p [] = refl
scan_runtimes_lem nf p (r ∷ rs) = elim (Bool-cases (text_beq p r)) [
  | inl e ↦ rw e refl
  | inr e ↦ rw e (scan_runtimes_lem nf p rs)
]

and_sound : (a b : Bool) → (a && b) ≡ true → (a ≡ true) × (b ≡ true)
and_sound true b h = (refl, h)
and_sound false b h = cc

or_sound : (a b : Bool) → (a || b) ≡ true → (a ≡ true) ⊎ (b ≡ true)
or_sound true b h = inl refl
or_sound false b h = inr h

matches_bool :
    (rule : Rule) (d : List (Text × Text)) (p : Text)
    → matches rule d p ≡ (
        (is_empty rule.container_runtimes || any (λ r. p == r) rule.container_runtimes)
        && (is_empty rule.filter_events || match_data rule.filter_events d))
unfolding matches
matches_bool rule d p =
    ground (arith, scan_runtimes_lem (is_empty rule.filter_events) p rule.container_runtimes)

-- Some value of a filter that the rule has for a key of the data occurs in the data's text there.
abbrev pub Hit : List (Text × Filter) → List (Text × Text) → Type 0
Hit filters d =
    (key : Text) × (og_value : Text) × (s : Filter) × (find : Text) × In (key, og_value) d
    × (lookup key filters ≡ some s)
    × In find s.values
    × (contains og_value find ≡ true)

Hit-there :
    (filters : List (Text × Filter)) (x : Text × Text) (d : List (Text × Text))
    → Hit filters d
    → Hit filters (x ∷ d)
Hit-there filters x d (key, og, s, find, i, l, j, c) = (key, og, s, find, there i, l, j, c)

match_data_sound :
    (filters : List (Text × Filter)) (d : List (Text × Text))
    → match_data filters d ≡ true
    → Hit filters d
unfolding match_data
match_data_sound filters [] h = cc
match_data_sound filters ((key, og) ∷ d) h = elim (Option-cases (lookup key filters)) [
  | inl e ↦ Hit-there filters (key, og) d (match_data_sound filters d (ground arith))
  | inr (s, e) ↦ elim (Bool-cases (any (contains og) s.values)) [
    | inl t ↦
        let (find, i, c) = any_sound (contains og) s.values t in
        (key, og, s, find, here refl, e, i, c)
    | inr f ↦ Hit-there filters (key, og) d (match_data_sound filters d (ground arith))
  ]
]

match_data_complete :
    (filters : List (Text × Filter)) (d : List (Text × Text))
    → Hit filters d
    → match_data filters d ≡ true
unfolding match_data
match_data_complete filters [] (key, og, s, find, i, l, j, c) = elim i [ ]
match_data_complete filters ((k, v) ∷ d) (key, og, s, find, here e, l, j, c) =
    let ek : key ≡ k = ap (λ t. t.0) e in
    let ev : og ≡ v = ap (λ t. t.1) e in
    rw (rw ek at l, match_data)
      (if-true _ _ (any_complete (contains v) find s.values j (rw ev at c)))
match_data_complete filters ((k, v) ∷ d) (key, og, s, find, there i, l, j, c) =
    ground (arith, match_data_complete filters d (key, og, s, find, i, l, j, c))

-- The runtime condition of a rule: it names no runtime, or names this one.
abbrev pub RuntimeFits : Rule → Text → Type 0
RuntimeFits rule p = (rule.container_runtimes ≡ []) ⊎ In p rule.container_runtimes

-- The filter condition of a rule: it has no filter, or one of them hits.
abbrev pub FilterFits : Rule → List (Text × Text) → Type 0
FilterFits rule d = (rule.filter_events ≡ []) ⊎ Hit rule.filter_events d

or_complete : (a b : Bool) → (a ≡ true) ⊎ (b ≡ true) → (a || b) ≡ true
or_complete a b h = ground arith

runtime_iff :
    (rule : Rule) (p : Text)
    → ((is_empty rule.container_runtimes || any (λ r. p == r) rule.container_runtimes) ≡ true)
      ↔ RuntimeFits rule p
runtime_iff rule p = (
  λ h. elim (or_sound _ _ h) [
    | inl e ↦ inl (is_empty_sound _ e)
    | inr e ↦
        let (r, i, t) = any_sound (λ r. p == r) rule.container_runtimes e in
        inr (rw (← (text_beq_iff p r).0 t) at i)
  ],
  λ h. or_complete _ _ (elim h [
    | inl e ↦ inl (ap is_empty e)
    | inr i ↦ inr (any_complete (λ r. p == r) p rule.container_runtimes i (text_beq_refl p))
  ]),
)

filter_iff :
    (rule : Rule) (d : List (Text × Text))
    → ((is_empty rule.filter_events || match_data rule.filter_events d) ≡ true) ↔ FilterFits rule d
filter_iff rule d = (
  λ h. elim (or_sound _ _ h) [
    | inl e ↦ inl (is_empty_sound _ e)
    | inr e ↦ inr (match_data_sound rule.filter_events d e)
  ],
  λ h. or_complete _ _ (elim h [
    | inl e ↦ inl (ap is_empty e)
    | inr i ↦ inr (match_data_complete rule.filter_events d i)
  ]),
)

-- `Match` returns true exactly when the rule names no runtime or the runtime of the process, and it
-- has no filter or one of its filters has a value that occurs in the event's data under its key. The
-- order in which the maps are read has no part in it.
pub matches_iff :
    (rule : Rule) (d : List (Text × Text)) (p : Text)
    → (matches rule d p ≡ true) ↔ (RuntimeFits rule p × FilterFits rule d)
matches_iff rule d p = rw matches_bool (
  λ h. let (a, b) = and_sound _ _ h in ((runtime_iff rule p).0 a, (filter_iff rule d).0 b),
  λ h. cc ((runtime_iff rule p).1 h.0, (filter_iff rule d).1 h.1),
)

-- ===== src/Daemon/Checks.antt =====
-- What the checks and the loops of `Run` in daemon.go accept and make.
use bpfd.Prelude.{
  ◌≡◌, refl, sym, ap, ◌∙◌, inl, inr, none, some, List, [], ◌∷◌, subst, Option-cases, nat_eq, In,
  In-cons, here, there, Result, ok, err, map_err, >>=-eq-ok, Result-cases, Text, text_eq,
}
use bpfd.Grpc.{Rule}
use bpfd.GoMap.{lookup, values}
use bpfd.GoMap.Laws.{lookup-In}
use bpfd.Rules.{RuleTable, validate_tracers_and_actions}
use bpfd.Rules.Table.{find_rule}
use bpfd.Rules.Validate.{IsSupported, validate_tracers_and_actions_iff}
use bpfd.Action
use bpfd.Action.{list_actions, get_action}
use bpfd.Daemon.{make_actions, check_rules, check_table}

check_rules_sound :
    (ts acts : List Text) (rules : List Rule)
    → check_rules ts acts rules ≡ ok tt
    → (r : Rule) → In r rules
    → IsSupported r ts acts
unfolding check_rules
check_rules_sound ts acts [] q r i = elim i [ ]
check_rules_sound ts acts (x ∷ rules) q r i =
    let (u, v, w) =
      >>=-eq-ok (validate_tracers_and_actions x ts acts) (λ _. check_rules ts acts rules) q in
    elim (In-cons i) [
      | inl e ↦ rw e ((validate_tracers_and_actions_iff x ts acts).0 v)
      | inr j ↦ check_rules_sound ts acts rules w r j
    ]

In-values : (n : Text) (r : Rule) (prs : List (Text × Rule)) → In (n, r) prs → In r (values prs)
unfolding values
In-values n r [] i = elim i [ ]
In-values n r ((m, x) ∷ prs) i = elim (In-cons i) [
  | inl e ↦ here (ap (λ t. t.1) e)
  | inr j ↦ there (In-values n r prs j)
]

pub check_table_sound :
    (ts acts : List Text) (table : RuleTable)
    → check_table ts acts table ≡ ok tt
    → (p : Text) (prs : List (Text × Rule)) → In (p, prs) table
    → (r : Rule) → In r (values prs)
    → IsSupported r ts acts
unfolding check_table
check_table_sound ts acts [] q p prs i r j = elim i [ ]
check_table_sound ts acts ((p', prs') ∷ table) q p prs i r j =
    let (u, v, w) =
      >>=-eq-ok (check_rules ts acts (values prs')) (λ _. check_table ts acts table) q in
    elim (In-cons i) [
      | inl e ↦
          check_rules_sound ts acts (values prs') v r
            (subst (λ t. In r (values t)) (ap (λ t. t.1) e) j)
      | inr k ↦ check_table_sound ts acts table w p prs k r j
    ]

pub make_actions-names :
    (acts : Action.Registered) (names made : List Text)
    → make_actions acts names ≡ ok made
    → made ≡ names
unfolding make_actions
make_actions-names acts [] made q = cc
make_actions-names acts (a ∷ names) made q = elim (Result-cases (get_action a acts)) [
  | inr (x, g) ↦
      absurd (let z : make_actions acts (a ∷ names) ≡ err x = rw (g, make_actions) refl in cc)
  | inl (u, g) ↦ elim (Result-cases (make_actions acts names)) [
    | inr (x, m) ↦
        absurd (let z : make_actions acts (a ∷ names) ≡ err x = rw (g, make_actions, m) refl in cc)
    | inl (rest, m) ↦
        let z : make_actions acts (a ∷ names) ≡ ok (a ∷ rest) = rw (g, make_actions, m) refl in
        let e : made ≡ a ∷ rest = cc in e ∙ ap (λ l. a ∷ l) (make_actions-names acts names rest m)
  ]
]

pub find_rule-In :
    (table : RuleTable) (tracer name : Text) (r : Rule)
    → find_rule table tracer name ≡ some r
    → (prs : List (Text × Rule)) × In (tracer, prs) table × In r (values prs)
unfolding find_rule
find_rule-In table tracer name r q = elim (Option-cases (lookup tracer table)) [
  | inl n ↦ absurd (let z : find_rule table tracer name ≡ none = rw (n, find_rule) refl in cc)
  | inr (prs, l) ↦
      let z : find_rule table tracer name ≡ lookup name prs = rw (l, find_rule) refl in
      (prs, lookup-In tracer table l, In-values name r prs (lookup-In name prs (sym z ∙ q)))
]

map_err-eq-ok :
    {E F A : Type 0} (f : E → F) (m : Result E A) {a : A} → map_err f m ≡ ok a → m ≡ ok a
map_err-eq-ok f (ok x) q = let z : x ≡ _ = cc in ap ok z
map_err-eq-ok f (err x) q = cc

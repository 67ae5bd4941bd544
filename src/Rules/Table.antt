-- ===== src/Rules/Table.antt =====
-- The table of rules that `ParseFiles` fills and the server keeps: reads after writes, and the
-- invariant that every rule stands under its own tracer and name.
use bpfd.Prelude.{
  ◌≡◌, refl, ◌⊎◌, inl, inr, ◌&&◌, Option, none, some, List, [], ◌∷◌, arith, subst, if◌then◌else◌,
  Bool-cases, Option-cases, nat_eq, All, Text, text_beq, text_beq_iff, text_eq,
}
use bpfd.Grpc.{Rule}
use bpfd.GoMap.{lookup, insert}
use bpfd.GoMap.Laws.{lookup-insert, IsMap, insert-IsMap}
use bpfd.Rules.{RuleTable, add_rule}
use bpfd.Rules.Validate.{IsValid}

-- `rules[tracer][name]`
unfoldable pub find_rule : RuleTable → Text → Text → Option Rule
find_rule table tracer name = elim (lookup tracer table) [
  | none ↦ none
  | some rules ↦ lookup name rules
]

-- The table as a function: what is under each tracer and name.
abbrev pub Table : Type 0
Table = Text → Text → Option Rule

pub same_table : {f g : Table} → ((tracer name : Text) → f tracer name ≡ g tracer name) → f ≡ g
same_table h i tracer name = h tracer name i

lookup-singleton :
    (k j : Text) (r : Rule) → lookup j ((k, r) ∷ []) ≡ (if text_beq k j then some r else none)
unfolding lookup
lookup-singleton k j r = refl

-- Adding a rule changes what is found under its tracer and name, and nothing else.
pub find_rule-add_rule :
    (rule : Rule) (table : RuleTable) (tracer name : Text)
    → find_rule (add_rule rule table) tracer name ≡ (
        if text_beq rule.tracer tracer && text_beq rule.name name
        then some rule
        else find_rule table tracer name)
unfolding find_rule add_rule
find_rule-add_rule rule table tracer name = elim (Option-cases (lookup rule.tracer table)) [
  | inl e ↦ ground (
    arith,
    lookup-insert rule.tracer tracer ((rule.name, rule) ∷ []) table,
    lookup-singleton rule.name name rule,
    text_beq_iff rule.tracer tracer,
  )
  | inr (rules, e) ↦ ground (
    arith,
    lookup-insert rule.tracer tracer (insert rule.name rule rules) table,
    lookup-insert rule.name name rule rules,
    text_beq_iff rule.tracer tracer,
  )
]

-- Every rule of the table is valid and stands under its own tracer and name.
pub record IsSound (table : RuleTable) : Type 0 where
  pub at :
      (tracer name : Text) (r : Rule)
      → find_rule table tracer name ≡ some r
      → (r.tracer ≡ tracer) × (r.name ≡ name) × IsValid r

some-injective : {a b : Rule} → some a ≡ some b → a ≡ b
some-injective h = cc

-- a rule found behind an addition is the rule added, or was there before
pub found_added :
    (rule r : Rule) (tracer name : Text) (before : Option Rule)
    → (if text_beq rule.tracer tracer && text_beq rule.name name then some rule else before)
      ≡ some r
    → ((rule ≡ r) × (rule.tracer ≡ tracer) × (rule.name ≡ name)) ⊎ (before ≡ some r)
found_added rule r tracer name before h =
    ground (arith, text_beq_iff rule.tracer tracer, text_beq_iff rule.name name)

pub add_rule-IsSound :
    (rule : Rule) (table : RuleTable) → IsValid rule → IsSound table → IsSound (add_rule rule table)
add_rule-IsSound rule table v s = record {
  at = λ tracer name r h. elim (found_added rule r tracer name _ (rw find_rule-add_rule at h)) [
    | inl (e, et, en) ↦ subst (λ q. (q.tracer ≡ tracer) × (q.name ≡ name) × IsValid q) e (et, en, v)
    | inr old ↦ s.at tracer name r old
  ];
}

pub IsSound-nil : IsSound []
unfolding find_rule lookup
IsSound-nil = record { at = λ tracer name r h. cc }

-- No tracer stands twice in the table, and no name twice under a tracer.
pub record IsTable (table : RuleTable) : Type 0 where
  pub outer : IsMap table
  pub inner : All (λ e. IsMap e.1) table

All-insert :
    (k : Text) (m : List (Text × Rule)) (t : RuleTable)
    → IsMap m
    → All (λ e. IsMap e.1) t
    → All (λ e. IsMap e.1) (insert k m t)
unfolding insert
All-insert k m [] h _ = (h, tt)
All-insert k m ((j, n) ∷ t) h (hn, ht) = elim (Bool-cases (text_beq j k)) [
  | inl e ↦ rw e (h, ht)
  | inr e ↦ rw e (hn, All-insert k m t h ht)
]

lookup-All :
    (k : Text) (t : RuleTable) {m : List (Text × Rule)}
    → All (λ e. IsMap e.1) t
    → lookup k t ≡ some m
    → IsMap m
unfolding lookup
lookup-All k [] h e = cc
lookup-All k ((j, n) ∷ t) {m} (hn, ht) e = elim (Bool-cases (text_beq j k)) [
  | inl b ↦ let p : some n ≡ some m = rw b at e in let q : n ≡ m = cc in subst (λ t. IsMap t) q hn
  | inr b ↦ lookup-All k t ht (rw b at e)
]

pub add_rule-IsTable :
    (rule : Rule) (table : RuleTable) → IsTable table → IsTable (add_rule rule table)
unfolding add_rule
add_rule-IsTable rule table v = elim (Option-cases (lookup rule.tracer table)) [
  | inl e ↦
      rw (e, add_rule)
        (record {
          outer = insert-IsMap rule.tracer ((rule.name, rule) ∷ []) table v.outer;
          inner = All-insert rule.tracer ((rule.name, rule) ∷ []) table (tt, tt) v.inner;
        })
  | inr (rules, e) ↦
      rw (e, add_rule)
        (record {
          outer = insert-IsMap rule.tracer (insert rule.name rule rules) table v.outer;
          inner =
              All-insert rule.tracer (insert rule.name rule rules) table
                (insert-IsMap rule.name rule rules (lookup-All rule.tracer table v.inner e))
                v.inner;
        })
]

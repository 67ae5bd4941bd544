-- ===== src/Api/Create.antt =====
-- `CreateRule` of api/api.go against the table of rules.
use bpfd.Prelude.{
  ◌≡◌, refl, ◌↔◌, ◌⊎◌, inl, inr, ◌&&◌, Option, none, some, arith, subst, if◌then◌else◌,
  Option-cases, nat_eq, ok, err, Result-cases, Text, text_beq, text_eq,
}
use bpfd.Grpc.{Rule, CreateRuleRequest}
use bpfd.Rules.{RuleTable, validate, validate_tracers_and_actions, add_rule}
use bpfd.Rules.Table.{find_rule, find_rule-add_rule, found_added, IsSound}
use bpfd.Rules.Validate.{IsValid, IsSupported, validate_iff, validate_tracers_and_actions_iff}
use bpfd.Api.{Server, Error, nil_rule, invalid, create_rule}

-- A request is accepted when it carries a rule that is valid and whose tracer and actions the daemon
-- was compiled with.
abbrev pub Accepts : Server → Rule → Type 0
Accepts s rule = IsValid rule × IsSupported rule s.tracer_list s.action_list

-- `CreateRule` succeeds exactly for a rule that is valid and supported.
pub create_rule_iff :
    (s : Server) (rule : Rule)
    → ((create_rule (some (record { rule = some rule })) s).0 ≡ ok tt) ↔ Accepts s rule
unfolding create_rule
create_rule_iff s rule = (
  λ h. elim (Result-cases (validate rule)) [
    | inl (u, v) ↦
        elim (Result-cases (validate_tracers_and_actions rule s.tracer_list s.action_list)) [
          | inl (w, a) ↦ ((validate_iff rule).0 v, (validate_tracers_and_actions_iff rule _ _).0 a)
          | inr (x, a) ↦ absurd (ground arith)
        ]
    | inr (x, v) ↦ absurd (ground arith)
  ],
  λ a.
      let v = (validate_iff rule).1 a.0 in
      let w = (validate_tracers_and_actions_iff rule s.tracer_list s.action_list).1 a.1 in
      ground arith,
)

-- A call of `CreateRule` that fails leaves the server as it was. One that succeeds carried an
-- acceptable rule, and changes the table alone: the rule is found under its tracer and name, in place of one that was
-- there, and every other tracer and name has what it had.
pub create_rule_effect :
    (c : Option CreateRuleRequest) (s : Server)
    → ((e : Error) × (create_rule c s ≡ (err e, s)))
      ⊎ ((rule : Rule) × (t : RuleTable) × (c ≡ some (record { rule = some rule }))
          × Accepts s rule
          × (create_rule c s ≡ (ok tt, record s { rules = t }))
          × ((tracer name : Text)
              → find_rule t tracer name ≡ (
                  if text_beq rule.tracer tracer && text_beq rule.name name
                  then some rule
                  else find_rule s.rules tracer name)))
unfolding create_rule
create_rule_effect none s = inl (nil_rule, refl)
create_rule_effect (some c) s = elim (Option-cases c.rule) [
  | inl n ↦ inl (nil_rule, rw n)
  | inr (rule, j) ↦ elim (Result-cases (validate rule)) [
    | inr (x, v) ↦ inl (invalid x, rw (j, v))
    | inl (u, v) ↦
        elim (Result-cases (validate_tracers_and_actions rule s.tracer_list s.action_list)) [
          | inr (x, a) ↦ inl (invalid x, rw (j, v, a))
          | inl (w, a) ↦ inr (
            rule,
            add_rule rule s.rules,
            λ i. some (record { rule = j i }),
            ((validate_iff rule).0 v, (validate_tracers_and_actions_iff rule _ _).0 a),
            rw (j, v, a),
            find_rule-add_rule rule s.rules,
          )
        ]
  ]
]

-- What holds of the table between calls: every rule in it is valid, stands under its own tracer and
-- name, and names a tracer and actions that the daemon has.
pub record IsConsistent (s : Server) : Type 0 where
  pub sound : IsSound s.rules
  pub supported :
      (tracer name : Text) (r : Rule)
      → find_rule s.rules tracer name ≡ some r
      → IsSupported r s.tracer_list s.action_list

-- `CreateRule` keeps the table consistent, whatever the request.
pub create_rule-IsConsistent :
    (c : Option CreateRuleRequest) (s : Server) → IsConsistent s → IsConsistent (create_rule c s).1
create_rule-IsConsistent c s h = elim (create_rule_effect c s) [
  | inl (x, e) ↦ rw e h
  | inr (rule, t, x, acc, e, find) ↦ rw e (record {
    sound = record {
      at = λ tracer name q f. elim (found_added rule q tracer name _ (rw find at f)) [
        | inl (p, pt, pn) ↦
            subst (λ (k : Rule). (k.tracer ≡ tracer) × (k.name ≡ name) × IsValid k) p
              (pt, pn, acc.0)
        | inr old ↦ h.sound.at tracer name q old
      ];
    };
    supported = λ tracer name q f. elim (found_added rule q tracer name _ (rw find at f)) [
      | inl (p, pt, pn) ↦ subst (λ k. IsSupported k s.tracer_list s.action_list) p acc.1
      | inr old ↦ h.supported tracer name q old
    ];
  })
]

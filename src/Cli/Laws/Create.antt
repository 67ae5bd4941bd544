-- ===== src/Cli/Laws/Create.antt =====
-- The create command of create.go.
use bpfd.Prelude.{
  ◌≡◌, refl, sym, ap, ◌∙◌, ◌⊎◌, inl, inr, ◌&&◌, some, List, [], ◌∷◌, ◌++◌, append-nil, subst,
  if◌then◌else◌, nat_eq, ok, err, Text, text_beq, text_eq,
}
use bpfd.Grpc.{Rule}
use bpfd.Rules.{RuleTable}
use bpfd.Rules.Table.{find_rule, Table, same_table}
use bpfd.Api.{Server, create_rule, remove_rule, empty_rule_name}
use bpfd.Api
use bpfd.Api.Create.{create_rule_effect}
use bpfd.Cli.{Outcome, create_failed, send_rules}
use bpfd.Cli.Laws.{Answer, later}

-- the table when some rules were put into it, one after the other
abbrev pub with_rules : List Rule → Table → Table
with_rules [] table = table
with_rules (r ∷ rules) table = with_rules rules (λ tracer name.
    if text_beq r.tracer tracer && text_beq r.name name then some r else table tracer name)

abbrev pub names_of : List Rule → List Text
names_of [] = []
names_of (r ∷ rules) = r.name ∷ names_of rules

-- what the loops do with the answer to a request
abbrev created : Rule → List Rule → List Text → Answer → Outcome
created r rules printed z = elim z.0 [
  | err e ↦ record { printed = printed; result = err (create_failed r.name e); server = z.1 }
  | ok _ ↦ send_rules rules (printed ++ r.name ∷ []) z.1
]

send_rules-cons :
    (r : Rule) (rules : List Rule) (printed : List Text) (s : Server)
    → send_rules (r ∷ rules) printed s
      ≡ created r rules printed (create_rule (some (record { rule = some r })) s)
unfolding send_rules
send_rules-cons r rules printed s = refl

put_one :
    (r q : Rule) (t : RuleTable) (s : Server)
    → q ≡ r
    → ((tracer name : Text)
        → find_rule t tracer name ≡ (
            if text_beq q.tracer tracer && text_beq q.name name
            then some q
            else find_rule s.rules tracer name))
    → find_rule t ≡ (λ tracer name.
      if text_beq r.tracer tracer && text_beq r.name name
      then some r
      else find_rule s.rules tracer name)
put_one r q t s same find = same_table (λ tracer name.
    subst
      (λ (k : Rule). find_rule t tracer name ≡ (
        if text_beq k.tracer tracer && text_beq k.name name
        then some k
        else find_rule s.rules tracer name))
      same (find tracer name))

-- The create command sends its rules one after the other. If the daemon accepts all, they are all
-- printed and in its table, a later one in place of an earlier one with its tracer and name.
-- Otherwise the command ends with the error for the first rule that is refused: the rules before it
-- are printed and stay in the table, and none from it on is created.
pub send_rules_cases :
    (rules : List Rule) (printed : List Text) (s : Server)
    → ((t : Server) × (send_rules rules printed s
          ≡ record { printed = printed ++ names_of rules; result = ok tt; server = t })
        × (find_rule t.rules ≡ with_rules rules (find_rule s.rules)))
      ⊎ ((before : List Rule) × (r : Rule) × (after : List Rule) × (e : Api.Error) × (t : Server)
          × (rules ≡ before ++ r ∷ after)
          × (create_rule (some (record { rule = some r })) t ≡ (err e, t))
          × (send_rules rules printed s ≡ record {
            printed = printed ++ names_of before;
            result = err (create_failed r.name e);
            server = t;
          })
          × (find_rule t.rules ≡ with_rules before (find_rule s.rules)))
unfolding send_rules
send_rules_cases [] printed s = inl (s, rw (append-nil printed) refl, refl)
send_rules_cases (r ∷ rules) printed s =
    elim (create_rule_effect (some (record { rule = some r })) s) [
      | inl (e, h) ↦ inr (
        [],
        r,
        rules,
        e,
        s,
        refl,
        h,
        send_rules-cons r rules printed s
            ∙ ap (created r rules printed) h
            ∙ ap
                (λ (l : List Text).
                  let o : Outcome = record {
                    printed = l;
                    result = err (create_failed r.name e);
                    server = s;
                  } in
                  o)
                (sym (append-nil printed)),
        refl,
      )
      | inr (q, t, c, acc, h, find) ↦
          let same : q ≡ r = cc in
          elim (send_rules_cases rules (printed ++ r.name ∷ []) (record s { rules = t })) [
            | inl (u, run, f) ↦ inl (
              u,
              later r.name printed (names_of rules) (ok tt) u _
                  (send_rules-cons r rules printed s ∙ ap (created r rules printed) h ∙ run),
              f ∙ ap (with_rules rules) (put_one r q t s same find),
            )
            | inr (before, x, after, e, u, split, refused, run, f) ↦ inr (
              r ∷ before,
              x,
              after,
              e,
              u,
              ap (λ l. r ∷ l) split,
              refused,
              later r.name printed (names_of before) (err (create_failed x.name e)) u _
                  (send_rules-cons r rules printed s ∙ ap (created r rules printed) h ∙ run),
              f ∙ ap (with_rules before) (put_one r q t s same find),
            )
          ]
    ]

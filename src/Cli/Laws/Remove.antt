-- ===== src/Cli/Laws/Remove.antt =====
-- The remove command of remove.go.
use bpfd.Prelude.{
  ℕ, ◌≡◌, refl, sym, ap, ◌∙◌, ◌≢◌, ◌⊎◌, inl, inr, Bool, true, false, ◌&&◌, none, some, List, [],
  ◌∷◌, ◌++◌, append-nil, subst, if◌then◌else◌, nat_eq, All, ok, err, Text, text_beq, text_eq,
}
use bpfd.Grpc.{RemoveRuleRequest}
use bpfd.Rules.{RuleTable}
use bpfd.Rules.Table.{find_rule, Table, same_table}
use bpfd.Api.{Server, remove_rule, empty_rule_name}
use bpfd.Api.Remove.{removes, remove_rule_effect}
use bpfd.Cli.{Outcome, remove_failed, send_names}
use bpfd.Cli.Laws.{Answer, no_more, later}

-- and when all rules of some names were taken away
abbrev pub without : List Text → Table → Table
without [] table = table
without (n ∷ names) table =
    without names (λ tracer name. if text_beq n name then none else table tracer name)

abbrev removed : Text → List Text → List Text → Answer → Outcome
removed n names printed z = elim z.0 [
  | err e ↦ record { printed = printed; result = err (remove_failed n e); server = z.1 }
  | ok _ ↦ send_names names (printed ++ n ∷ []) z.1
]

send_names-cons :
    (n : Text) (names printed : List Text) (s : Server)
    → send_names (n ∷ names) printed s
      ≡ removed n names printed (remove_rule (some (record { name = n; tracer = [] })) s)
unfolding send_names
send_names-cons n names printed s = refl

and_true_right : (b : Bool) → (b && true) ≡ b
and_true_right true = refl
and_true_right false = refl

removes-request :
    (n tracer name : Text) (r : RemoveRuleRequest)
    → record { name = n; tracer = [] } ≡ r
    → removes r tracer name ≡ text_beq n name
removes-request n tracer name r e =
    subst (λ (k : RemoveRuleRequest). removes k tracer name ≡ text_beq n name) e
      (and_true_right (text_beq n name))

remove_named :
    (c : ℕ) (cs : Text) (s : Server)
    → (t : RuleTable) × (remove_rule (some (record { name = c ∷ cs; tracer = [] })) s
        ≡ (ok tt, record s { rules = t }))
      × (find_rule t
          ≡ (λ tracer name. if text_beq (c ∷ cs) name then none else find_rule s.rules tracer name))
remove_named c cs s = elim (remove_rule_effect (some (record { name = c ∷ cs; tracer = [] })) s) [
  | inl (inl e, q) ↦ absurd cc
  | inl (inr (r, e, z), q) ↦ absurd (
      let k : record { name = c ∷ cs; tracer = [] } ≡ r = cc in
      let y : c ∷ cs ≡ [] = ap (λ (w : RemoveRuleRequest). w.name) k ∙ z in cc)
  | inr (r, t, e, nn, q, find) ↦
      let k : record { name = c ∷ cs; tracer = [] } ≡ r = cc in
      (
        t,
        q,
        same_table (λ tracer name.
            find tracer name
            ∙ ap (λ b. if b then none else find_rule s.rules tracer name)
                (removes-request (c ∷ cs) tracer name r k)),
      )
]

-- The remove command sends its names one after the other, each for the rules of every tracer. If
-- none is empty, all are printed and no rule with one of them is left, whether there was one or
-- not. Otherwise the command ends with an error at the first that is empty: the names before it are
-- printed and their rules are gone.
pub send_names_cases :
    (names printed : List Text) (s : Server)
    → ((t : Server) × (send_names names printed s
          ≡ record { printed = printed ++ names; result = ok tt; server = t })
        × All (λ n. n ≢ []) names
        × (find_rule t.rules ≡ without names (find_rule s.rules)))
      ⊎ ((before : List Text) × (after : List Text) × (t : Server) × (names ≡ before ++ [] ∷ after)
          × All (λ n. n ≢ []) before
          × (send_names names printed s ≡ record {
            printed = printed ++ before;
            result = err (remove_failed [] empty_rule_name);
            server = t;
          })
          × (find_rule t.rules ≡ without before (find_rule s.rules)))
unfolding send_names
send_names_cases [] printed s = inl (
  s,
  ap (λ (l : List Text). let o : Outcome = record { printed = l; result = ok tt; server = s } in o)
      (sym (append-nil printed)),
  tt,
  refl,
)
send_names_cases ([] ∷ names) printed s = inr (
  [],
  names,
  s,
  refl,
  tt,
  no_more printed (err (remove_failed [] empty_rule_name)) s _ refl,
  refl,
)
send_names_cases ((c ∷ cs) ∷ names) printed s =
    let (t, h, find) = remove_named c cs s in
    let n = c ∷ cs in
    elim (send_names_cases names (printed ++ n ∷ []) (record s { rules = t })) [
      | inl (u, run, all, f) ↦ inl (
        u,
        later n printed names (ok tt) u _
            (send_names-cons n names printed s ∙ ap (removed n names printed) h ∙ run),
        (λ q. cc, all),
        f ∙ ap (without names) find,
      )
      | inr (before, after, u, split, all, run, f) ↦ inr (
        n ∷ before,
        after,
        u,
        ap (λ l. n ∷ l) split,
        (λ q. cc, all),
        later n printed before (err (remove_failed [] empty_rule_name)) u _
            (send_names-cons n names printed s ∙ ap (removed n names printed) h ∙ run),
        f ∙ ap (without before) find,
      )
    ]

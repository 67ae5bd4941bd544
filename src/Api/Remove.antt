-- ===== src/Api/Remove.antt =====
-- `RemoveRule` of api/api.go against the table of rules.
use bpfd.Prelude.{
  ◌≡◌, refl, ap, ◌≢◌, ◌⊎◌, inl, inr, Bool, true, false, ◌&&◌, ◌||◌, Option, none, some, List, [],
  ◌∷◌, arith, if◌then◌else◌, Bool-cases, Option-cases, ◌==◌, nat_eq, is_empty, is_empty_sound, any,
  ok, err, Text, text_beq, text_beq_iff, text_eq,
}
use bpfd.Grpc.{Rule, RemoveRuleRequest}
use bpfd.GoMap.{lookup, delete, keys}
use bpfd.GoMap.Laws.{lookup-insert, lookup-delete}
use bpfd.Rules.{RuleTable}
use bpfd.Rules.Table.{find_rule}
use bpfd.Api.{Server, empty_rule_name, delete_named, delete_everywhere, delete_rule, remove_rule}
use bpfd.Api.Create.{IsConsistent}

lookup_delete_rule :
    (tracer n : Text) (table : RuleTable) (t m : Text)
    → find_rule (delete_rule tracer n table) t m
      ≡ (if text_beq tracer t && text_beq n m then none else find_rule table t m)
unfolding find_rule delete_rule
lookup_delete_rule tracer n table t m = elim (Option-cases (lookup tracer table)) [
  | inl e ↦ ground (arith, text_beq_iff tracer t)
  | inr (prs, e) ↦ ground (
    arith,
    lookup-insert tracer t (delete n prs) table,
    lookup-delete n m prs,
    text_beq_iff tracer t,
  )
]

-- the deletes of the inner loop of `RemoveRule` amount to one
lookup-delete_named :
    (n : Text) (ks : List Text) (prs : List (Text × Rule)) (m : Text)
    → lookup m (delete_named n ks prs)
      ≡ (if text_beq n m && any (λ k. k == n) ks then none else lookup m prs)
unfolding delete_named
lookup-delete_named n [] prs m = ground arith
lookup-delete_named n (k ∷ ks) prs m = elim (Bool-cases (text_beq k n)) [
  | inl e ↦ ground (arith, lookup-delete_named n ks (delete n prs) m, lookup-delete n m prs)
  | inr e ↦ ground (arith, lookup-delete_named n ks prs m)
]

no_key :
    (n : Text) (prs : List (Text × Rule))
    → any (λ k. k == n) (keys prs) ≡ false
    → lookup n prs ≡ none
unfolding lookup keys
no_key n [] h = refl
no_key n ((k, v) ∷ prs) h = elim (Bool-cases (text_beq k n)) [
  | inl e ↦ absurd (ground arith)
  | inr e ↦ rw e (no_key n prs (ground arith))
]

delete_named-keys :
    (n m : Text) (prs : List (Text × Rule))
    → lookup m (delete_named n (keys prs) prs) ≡ (if text_beq n m then none else lookup m prs)
delete_named-keys n m prs = elim (Bool-cases (any (λ k. k == n) (keys prs))) [
  | inl e ↦ ground (arith, lookup-delete_named n (keys prs) prs m)
  | inr e ↦ ground (arith, lookup-delete_named n (keys prs) prs m, no_key n prs e, text_beq_iff n m)
]

find_rule-delete_everywhere :
    (n : Text) (table : RuleTable) (t m : Text)
    → find_rule (delete_everywhere n table) t m
      ≡ (if text_beq n m then none else find_rule table t m)
unfolding find_rule delete_everywhere lookup
find_rule-delete_everywhere n [] t m = ground arith
find_rule-delete_everywhere n ((p, prs) ∷ table) t m =
    ground (arith, find_rule-delete_everywhere n table t m, delete_named-keys n m prs)

-- Which rules a request removes: those with its name, under its tracer if it has one and under every
-- tracer if it has none.
abbrev pub removes : RemoveRuleRequest → Text → Text → Bool
removes r tracer name = text_beq r.name name && (is_empty r.tracer || text_beq r.tracer tracer)

-- `RemoveRule` fails exactly when the request is nil or has no name, and then the server stays as it
-- was. Otherwise it changes the table alone: the rules with that name are gone, under the tracer of
-- the request or, if it has none, under every tracer, and every other rule is found as before. It is
-- no error if there was none.
pub remove_rule_effect :
    (q : Option RemoveRuleRequest) (s : Server)
    → (((q ≡ none) ⊎ ((r : RemoveRuleRequest) × (q ≡ some r) × (r.name ≡ [])))
        × (remove_rule q s ≡ (err empty_rule_name, s)))
      ⊎ ((r : RemoveRuleRequest) × (t : RuleTable) × (q ≡ some r)
          × (r.name ≢ [])
          × (remove_rule q s ≡ (ok tt, record s { rules = t }))
          × ((tracer name : Text)
              → find_rule t tracer name
                ≡ (if removes r tracer name then none else find_rule s.rules tracer name)))
unfolding remove_rule
remove_rule_effect none s = inl (inl refl, refl)
remove_rule_effect (some r) s = elim (Bool-cases (is_empty r.name)) [
  | inl e ↦ inl (inr (r, refl, is_empty_sound r.name e), rw e)
  | inr e ↦ elim (Bool-cases (is_empty r.tracer)) [
    | inl t ↦ inr (
      r,
      delete_everywhere r.name s.rules,
      refl,
      λ z. cc (ap is_empty z, e),
      rw (e, t),
      λ tracer name. ground (arith, find_rule-delete_everywhere r.name s.rules tracer name),
    )
    | inr t ↦ inr (
      r,
      delete_rule r.tracer r.name s.rules,
      refl,
      λ z. cc (ap is_empty z, e),
      rw (e, t),
      λ tracer name. ground (arith, lookup_delete_rule r.tracer r.name s.rules tracer name),
    )
  ]
]

removed_before :
    (b : Bool) (o : Option Rule) (r : Rule) → (if b then none else o) ≡ some r → o ≡ some r
removed_before true o r h = cc
removed_before false o r h = h

-- `RemoveRule` keeps the table consistent, whatever the request.
pub remove_rule-IsConsistent :
    (q : Option RemoveRuleRequest) (s : Server) → IsConsistent s → IsConsistent (remove_rule q s).1
remove_rule-IsConsistent q s h = elim (remove_rule_effect q s) [
  | inl (x, e) ↦ rw e h
  | inr (r, t, x, y, e, find) ↦ rw e (record {
    sound = record {
      at = λ tracer name q f. h.sound.at tracer name q (removed_before _ _ q (rw find at f));
    };
    supported = λ tracer name q f. h.supported tracer name q (removed_before _ _ q (rw find at f));
  })
]

-- ===== src/Api/Listing/Laws.antt =====
-- What the response of `ListRules` holds.
use bpfd.Prelude.{
  ℕ, zero, suc, ◌≤◌, ◌<◌, ◌≡◌, refl, ap, ◌∙◌, ◌≢◌, some, List, [], ◌∷◌, ◌++◌, append_assoc,
  append-nil, arith, subst, nat_eq, length, replicate, length-append, All, All-append, In, here,
  there, Text, text_eq,
}
use mathlib.Core.Path.{ap₂}
use mathlib.Core.Path.{ap₂}
use bpfd.Grpc.{Rule}
use bpfd.GoMap.{values}
use bpfd.Rules.{RuleTable}
use bpfd.Api.{Server}
use bpfd.Api.Listing.{Pointer, write, read, zero_rule, point_at, collect, deref, list_rules}

-- The last rule of a list, or the one given.
abbrev pub last_or : Rule → List Rule → Rule
last_or x [] = x
last_or x (v ∷ vs) = last_or v vs

-- For each tracer the rule that its map gives last, as often as the tracer has rules.
abbrev pub listed : RuleTable → List Rule
listed [] = []
listed ((p, prs) ∷ table) =
    replicate (length (values prs)) (last_or zero_rule (values prs)) ++ listed table

write-append : (old : List Rule) (x v : Rule) → write (old ++ x ∷ []) (length old) v ≡ old ++ v ∷ []
unfolding write
write-append [] x v = refl
write-append (y ∷ old) x v = ap (λ t. y ∷ t) (write-append old x v)

read-append : (old : List Rule) (x : Rule) → read (old ++ x ∷ []) (length old) ≡ some x
unfolding read
read-append [] x = refl
read-append (y ∷ old) x = read-append old x

read-append_left :
    (old : List Rule) (x : Rule) (p : Pointer)
    → p < length old
    → read (old ++ x ∷ []) p ≡ read old p
unfolding read
read-append_left [] x p h = elim h [ ]
read-append_left (y ∷ old) x zero h = refl
read-append_left (y ∷ old) x (suc p) h = read-append_left old x p (omega arith)

point_at_lem :
    (old vs : List Rule) (x : Rule) (rs : List Pointer)
    → point_at (length old) vs (old ++ x ∷ [], rs)
      ≡ (old ++ last_or x vs ∷ [], rs ++ replicate (length vs) (length old))
unfolding point_at
point_at_lem old [] x rs = rw append-nil
point_at_lem old (v ∷ vs) x rs =
    ap (λ (t : List Rule). point_at (length old) vs (t, rs ++ length old ∷ []))
      (write-append old x v)
    ∙ point_at_lem old vs v (rs ++ length old ∷ [])
    ∙ ap
        (λ (t : List Pointer).
          let q : List Rule × List Pointer = (old ++ last_or v vs ∷ [], t) in q)
        (append_assoc rs (length old ∷ []) (replicate (length vs) (length old)))

deref-append :
    (store : List Rule) (ps qs : List Pointer)
    → deref store (ps ++ qs) ≡ deref store ps ++ deref store qs
unfolding deref
deref-append store [] qs = refl
deref-append store (p ∷ ps) qs = ground (arith, deref-append store ps qs)

deref-replicate :
    (old : List Rule) (x : Rule) (n : ℕ)
    → deref (old ++ x ∷ []) (replicate n (length old)) ≡ replicate n x
unfolding deref
deref-replicate old x zero = refl
deref-replicate old x (suc n) = ground (arith, read-append old x, deref-replicate old x n)

deref-append_left :
    (old : List Rule) (x : Rule) (ps : List Pointer)
    → All (λ p. p < length old) ps
    → deref (old ++ x ∷ []) ps ≡ deref old ps
unfolding deref
deref-append_left old x [] h = refl
deref-append_left old x (p ∷ ps) (hp, h) =
    ground (arith, read-append_left old x p hp, deref-append_left old x ps h)

All-replicate : (P : ℕ → Type 0) (n p : ℕ) → P p → All P (replicate n p)
All-replicate P zero p h = tt
All-replicate P (suc n) p h = (h, All-replicate P n p h)

All-weaken : (ps : List Pointer) (n m : ℕ) → n ≤ m → All (λ p. p < n) ps → All (λ p. p < m) ps
All-weaken [] n m le h = tt
All-weaken (p ∷ ps) n m le (hp, h) = (omega arith, All-weaken ps n m le h)

collect_lem :
    (table : RuleTable) (store : List Rule) (rs : List Pointer)
    → All (λ p. p < length store) rs
    → deref (collect table (store, rs)).0 (collect table (store, rs)).1
      ≡ deref store rs ++ listed table
unfolding collect
collect_lem [] store rs h = rw append-nil
collect_lem ((p, prs) ∷ table) store rs h =
    let vs = values prs in
    let last = last_or zero_rule vs in
    let rs' : List Pointer = rs ++ replicate (length vs) (length store) in
    let bound : length store < length (store ++ last ∷ []) =
      omega (arith, length-append {0} store (last ∷ [])) in
    ap (λ (t : List Rule × List Pointer). deref (collect table t).0 (collect table t).1)
      (point_at_lem store vs zero_rule rs)
    ∙ collect_lem table (store ++ last ∷ []) rs' (
        All-append (λ p. p < length (store ++ last ∷ [])) rs _
          (All-weaken rs (length store) _ (omega (arith, bound)) h)
          (All-replicate (λ p. p < length (store ++ last ∷ [])) (length vs) (length store) bound))
    ∙ ap (λ t. t ++ listed table)
        (deref-append (store ++ last ∷ []) rs _
          ∙ ap₂ (λ (a b : List Rule). a ++ b) (deref-append_left store last rs h)
              (deref-replicate store last (length vs)))
    ∙ append_assoc (deref store rs) (replicate (length vs) last) (listed table)

-- `ListRules` answers, for each tracer, with the rule that the map gives last, repeated as often as
-- the tracer has rules: all the pointers of one loop refer to its one variable.
pub list_rules-listed : (s : Server) → (list_rules s).rules ≡ listed s.rules
unfolding list_rules deref
list_rules-listed s = collect_lem s.rules [] [] tt

-- every tracer has at most one rule
abbrev pub AtMostOne : RuleTable → Type 0
AtMostOne table = All (λ e. length e.1 ≤ 1) table

abbrev pub all_rules : RuleTable → List Rule
all_rules [] = []
all_rules ((p, prs) ∷ table) = values prs ++ all_rules table

listed_single : (table : RuleTable) → AtMostOne table → listed table ≡ all_rules table
unfolding values
listed_single [] h = refl
listed_single ((p, []) ∷ table) (_, h) = listed_single table h
listed_single ((p, (n, r) ∷ []) ∷ table) (_, h) = ap (λ t. r ∷ t) (listed_single table h)
listed_single ((p, x ∷ y ∷ prs) ∷ table) (b, h) = absurd (omega arith)

-- `ListRules` answers with exactly the rules of the table if no tracer has more than one rule.
pub list_rules_exact : (s : Server) → AtMostOne s.rules → (list_rules s).rules ≡ all_rules s.rules
list_rules_exact s h = list_rules-listed s ∙ listed_single s.rules h

last_or-append :
    (x v : Rule) (prs : List (Text × Rule)) (n : Text) → last_or x (values (prs ++ (n, v) ∷ [])) ≡ v
unfolding values
last_or-append x v [] n = refl
last_or-append x v ((m, w) ∷ prs) n = last_or-append w v prs n

In-replicate : (n : ℕ) (x y : Rule) → In x (replicate n y) → x ≡ y
In-replicate zero x y i = elim i [ ]
In-replicate (suc n) x y (here e) = e
In-replicate (suc n) x y (there i) = In-replicate n x y i

-- Where a tracer has a rule other than the one that its map gives last, and no other tracer is in the
-- table, that rule is missing from the answer of `ListRules`.
pub list_rules_loses :
    (s : Server) (p n : Text) (prs : List (Text × Rule)) (last r : Rule)
    → s.rules ≡ (p, prs ++ (n, last) ∷ []) ∷ []
    → r ≢ last
    → ¬ In r (list_rules s).rules
list_rules_loses s p n prs last r e ne i =
    let vs = values (prs ++ (n, last) ∷ []) in
    let j : In r (replicate (length vs) (last_or zero_rule vs) ++ []) =
      subst (In r) (list_rules-listed s ∙ ap listed e) i in
    let k : In r (replicate (length vs) (last_or zero_rule vs)) = rw append-nil at j in
    ne (In-replicate (length vs) r _ k ∙ last_or-append zero_rule last prs n)

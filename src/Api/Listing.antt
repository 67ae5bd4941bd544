-- ===== src/Api/Listing.antt =====
-- api/api.go: `ListRules`, with the variables that its response points to.
pub mod Laws
use bpfd.Prelude.{ℕ, zero, suc, Option, none, some, List, [], ◌∷◌, ◌++◌, nat_eq, length, text_eq}
use bpfd.Grpc.{Rule, ListRulesResponse}
use bpfd.GoMap.{values}
use bpfd.Rules.{RuleTable}
use bpfd.Api.{Server}

-- `ListRules` appends `&rule`, the address of the loop variable. With the Go 1.11 of the build each
-- `for` statement has one such variable, so the model has a store of variables, and pointers into it.
abbrev pub Pointer : Type 0
Pointer = ℕ

-- a variable of the store is written
unfoldable pub write : List Rule → Pointer → Rule → List Rule
write [] i v = []
write (x ∷ xs) zero v = v ∷ xs
write (x ∷ xs) (suc i) v = x ∷ write xs i v

-- what a pointer refers to when the response is encoded
unfoldable pub read : List Rule → Pointer → Option Rule
read [] i = none
read (x ∷ xs) zero = some x
read (x ∷ xs) (suc i) = read xs i

abbrev pub zero_rule : Rule
zero_rule = record {
  name = [];
  tracer = [];
  filter_events = [];
  container_runtimes = [];
  actions = [];
}

-- `for _, rule := range prs { rs = append(rs, &rule) }` with its variable at `p`
unfoldable pub point_at : Pointer → List Rule → List Rule × List Pointer → List Rule × List Pointer
unfolding write
point_at p [] (store, rs) = (store, rs)
point_at p (rule ∷ prs) (store, rs) = point_at p prs (write store p rule, rs ++ p ∷ [])

-- the loop over the tracers; each inner `for` statement has a new variable
unfoldable pub collect : RuleTable → List Rule × List Pointer → List Rule × List Pointer
unfolding point_at values
collect [] (store, rs) = (store, rs)
collect ((p, prs) ∷ table) (store, rs) =
    collect table (point_at (length store) (values prs) (store ++ zero_rule ∷ [], rs))

unfoldable pub deref : List Rule → List Pointer → List Rule
unfolding read
deref store [] = []
deref store (p ∷ ps) = elim (read store p) [ none ↦ deref store ps | some r ↦ r ∷ deref store ps ]

-- `ListRules`
unfoldable pub list_rules : Server → ListRulesResponse
unfolding collect deref
list_rules s = let (store, rs) = collect s.rules ([], []) in record { rules = deref store rs }

-- ===== src/GoMap.antt =====
-- Go's built-in maps: an association list. Go leaves the order of `range` open, so the order of the
-- list stands for one order that the run time may choose; reads go by key alone.
pub mod Laws
use bpfd.Prelude.{Option, none, some, List, [], ◌∷◌, if◌then◌else◌, Eq, ◌==◌, nat_eq, text_eq}

module _ {ℓ} {K V : Type ℓ} ⦃e : Eq K⦄ where
  -- `v, ok := m[k]`
  unfoldable pub lookup : K → List (K × V) → Option V
  lookup k [] = none
  lookup k ((j, v) ∷ m) = if j == k then some v else lookup k m

  -- `m[k] = v`
  unfoldable pub insert : K → V → List (K × V) → List (K × V)
  insert key value [] = (key, value) ∷ []
  insert key value ((j, old) ∷ rest) =
      if j == key then (key, value) ∷ rest else (j, old) ∷ insert key value rest

  -- `delete(m, k)`
  unfoldable pub delete : K → List (K × V) → List (K × V)
  delete k [] = []
  delete k ((j, w) ∷ m) = let rest = delete k m in if j == k then rest else (j, w) ∷ rest

module _ {ℓ} {K V : Type ℓ} where
  unfoldable pub keys : List (K × V) → List K
  keys [] = []
  keys ((k, v) ∷ m) = k ∷ keys m

  unfoldable pub values : List (K × V) → List V
  values [] = []
  values ((k, v) ∷ m) = v ∷ values m

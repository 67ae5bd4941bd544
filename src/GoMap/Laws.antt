-- ===== src/GoMap/Laws.antt =====
-- Laws of the map operations in conditional form.
use bpfd.Prelude.{
  ◌≡◌, refl, sym, ap, ◌≢◌, inl, inr, true, none, some, List, [], ◌∷◌, arith, if◌then◌else◌,
  Bool-cases, Eq, ◌==◌, nat_eq, In, here, there, text_eq,
}
use bpfd.GoMap.{lookup, insert, delete}

pub beq_refl {ℓ} : {K : Type ℓ} ⦃e : Eq K⦄ → (k : K) → (k == k) ≡ true
beq_refl ⦃e⦄ k = (e.beq_iff k k).1 refl

module _ {ℓ} {K V : Type ℓ} ⦃e : Eq K⦄ where
  -- A key that was set has the new value, and every other key its own.
  pub lookup-insert :
      (key other : K) (value : V) (m : List (K × V))
      → lookup other (insert key value m) ≡ (if key == other then some value else lookup other m)
  unfolding lookup insert
  lookup-insert key other value [] = refl
  lookup-insert key other value ((i, w) ∷ m) = ground (
    arith,
    e.beq_iff key other,
    e.beq_iff i key,
    e.beq_iff i other,
    lookup-insert key other value m,
  )

  pub lookup-delete :
      (k j : K) (m : List (K × V)) → lookup j (delete k m) ≡ (if k == j then none else lookup j m)
  unfolding lookup delete
  lookup-delete k j [] = ground arith
  lookup-delete k j ((i, w) ∷ m) =
      ground (arith, e.beq_iff k j, e.beq_iff i k, e.beq_iff i j, lookup-delete k j m)

  pub lookup-In : (k : K) (m : List (K × V)) {v : V} → lookup k m ≡ some v → In (k, v) m
  unfolding lookup
  lookup-In k [] h = cc
  lookup-In k ((j, w) ∷ m) {v} h = elim (Bool-cases (j == k)) [
    | inl t ↦ here (let p : j ≡ k = (e.beq_iff j k).0 t in ground arith)
    | inr f ↦ there (lookup-In k m (ground arith))
  ]

-- No key twice, as in every Go map.
module _ {ℓ} {K V : Type ℓ} where
  abbrev pub Fresh : K → List (K × V) → Type ℓ
  Fresh k [] = Unit
  Fresh k ((j, v) ∷ m) = (k ≢ j) × Fresh k m

  abbrev pub IsMap : List (K × V) → Type ℓ
  IsMap [] = Unit
  IsMap ((k, v) ∷ m) = Fresh k m × IsMap m

module _ {ℓ} {K V : Type ℓ} ⦃e : Eq K⦄ where
  Fresh-insert : (k j : K) (v : V) (m : List (K × V)) → k ≢ j → Fresh k m → Fresh k (insert j v m)
  unfolding insert
  Fresh-insert k j v [] ne h = (ne, tt)
  Fresh-insert k j v ((i, w) ∷ m) ne (hk, hm) = elim (Bool-cases (i == j)) [
    | inl t ↦ rw t (ne, hm)
    | inr f ↦ rw f (hk, Fresh-insert k j v m ne hm)
  ]

  pub insert-IsMap : (k : K) (v : V) (m : List (K × V)) → IsMap m → IsMap (insert k v m)
  unfolding insert
  insert-IsMap k v [] h = (tt, tt)
  insert-IsMap k v ((i, w) ∷ m) (fr, h) = elim (Bool-cases (i == k)) [
    | inl t ↦ rw t (rw ((e.beq_iff i k).0 t) at fr, h)
    | inr f ↦
        rw f (Fresh-insert i k v m (λ p. cc (f, (e.beq_iff i k).1 p)) fr, insert-IsMap k v m h)
  ]

  Fresh-delete : (k j : K) (m : List (K × V)) → Fresh k m → Fresh k (delete j m)
  unfolding delete
  Fresh-delete k j [] h = h
  Fresh-delete k j ((i, w) ∷ m) (hk, hm) = elim (Bool-cases (i == j)) [
    | inl t ↦ rw t (Fresh-delete k j m hm)
    | inr f ↦ rw f (hk, Fresh-delete k j m hm)
  ]

  pub delete-IsMap : (k : K) (m : List (K × V)) → IsMap m → IsMap (delete k m)
  unfolding delete
  delete-IsMap k [] h = h
  delete-IsMap k ((i, w) ∷ m) (fr, h) = elim (Bool-cases (i == k)) [
    | inl t ↦ rw t (delete-IsMap k m h)
    | inr f ↦ rw f (Fresh-delete i k m fr, delete-IsMap k m h)
  ]

  Fresh-In : (k : K) (v : V) (m : List (K × V)) → Fresh k m → In (k, v) m → ⊥
  Fresh-In k v [] fr h = elim h [ ]
  Fresh-In k v ((j, w) ∷ m) (ne, fr) (here p) = ne (ap (λ t. t.0) p)
  Fresh-In k v ((j, w) ∷ m) (ne, fr) (there h) = Fresh-In k v m fr h

  -- In a map an entry of the list is what a read of its key returns.
  pub In-lookup : (k : K) (v : V) (m : List (K × V)) → IsMap m → In (k, v) m → lookup k m ≡ some v
  unfolding lookup
  In-lookup k v [] h i = elim i [ ]
  In-lookup k v ((j, w) ∷ m) (fr, h) (here p) =
      let q : k ≡ j = ap (λ t. t.0) p in
      let r : v ≡ w = ap (λ t. t.1) p in rw ((e.beq_iff j k).1 (sym q)) (ap some (sym r))
  In-lookup k v ((j, w) ∷ m) (fr, h) (there i) = elim (Bool-cases (j == k)) [
    | inl t ↦ absurd (Fresh-In k v m (rw ((e.beq_iff j k).0 t) at fr) i)
    | inr f ↦ rw f (In-lookup k v m h i)
  ]

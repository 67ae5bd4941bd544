-- ===== src/Bpf/Full.antt =====
-- What a table of saved data that may be full does to the pairing of entries and returns: `BPF_HASH` keeps
-- 10240 entries, and `update` of a thread that has none fails when there is no room.
use bpfd.Prelude.{
  ℕ, ◌≡◌, refl, sym, ◌∙◌, ◌⊎◌, inl, inr, true, false, Option, none, some, List, [], ◌∷◌,
  if◌then◌else◌, nat_beq, nat_beq_iff, Bool-cases, Option-cases,
}
use bpfd.Bpf.{HashTable}
use bpfd.Bpf.Pairing.{
  Probe, enter, leave, save, submitted, calls, of_thread, calls-other, calls-same, submitted-none,
  submitted-some,
}

-- The behaviour of a table with a limit: an update of a key that is there replaces its value, one of a key
-- that is not there may be refused, and a deletion always works.
pub record IsLimited {A : Type 0} (tmp : HashTable A) : Type 0 where
  pub lookup-empty : (i : ℕ) → tmp.lookup i tmp.empty ≡ none
  pub lookup-update :
      (i : ℕ) (a : A) (m : tmp.Table)
      → ((j : ℕ)
          → tmp.lookup j (tmp.update i a m) ≡ (if nat_beq i j then some a else tmp.lookup j m))
        ⊎ ((tmp.lookup i m ≡ none) × ((j : ℕ) → tmp.lookup j (tmp.update i a m) ≡ tmp.lookup j m))
  pub lookup-delete :
      (i j : ℕ) (m : tmp.Table)
      → tmp.lookup j (tmp.delete i m) ≡ (if nat_beq i j then none else tmp.lookup j m)

-- Some of the events of a list, in its order.
pub data Some {B : Type 0} : List B → List B → Type 0 where
  nothing : {ys : List B} → Some [] ys
  kept : (x : B) {xs ys : List B} → Some xs ys → Some (x ∷ xs) (x ∷ ys)
  lost : (y : B) {xs ys : List B} → Some xs ys → Some xs (y ∷ ys)

-- what the table has of a thread is its latest entry or nothing
abbrev Follows : {A : Type 0} → Option A → Option A → Type 0
Follows o pending = (o ≡ none) ⊎ (o ≡ pending)

module _ {A B : Type 0} (tmp : HashTable A) (fill : A → ℕ → B) (limited : IsLimited tmp) where
  enter-Follows :
      (id j : ℕ) (a : A) (m : tmp.Table) (pending : Option A)
      → Follows (tmp.lookup id m) pending
      → Follows (tmp.lookup id (tmp.update j a m)) (if nat_beq j id then some a else pending)
  enter-Follows id j a m pending f = elim (Bool-cases (nat_beq j id)) [
    | inl t ↦ elim (limited.lookup-update j a m) [
      | inl stored ↦ inr (stored id ∙ rw t refl)
      | inr (free, same) ↦ inl (same id ∙ rw⁻¹ ((nat_beq_iff j id).0 t) free)
    ]
    | inr o ↦ elim (limited.lookup-update j a m) [
      | inl stored ↦
          let e : tmp.lookup id (tmp.update j a m) ≡ tmp.lookup id m = stored id ∙ rw o refl in
          rw (o, e) f
      | inr (free, same) ↦ rw (o, same id) f
    ]
  ]

  delete-Follows :
      (id j : ℕ) (m : tmp.Table) (pending : Option A)
      → nat_beq j id ≡ false
      → Follows (tmp.lookup id m) pending
      → Follows (tmp.lookup id (tmp.delete j m)) pending
  delete-Follows id j m pending o f =
      let e : tmp.lookup id (tmp.delete j m) ≡ tmp.lookup id m =
        limited.lookup-delete j id m ∙ rw o refl in
      rw e f

  -- a return of the thread that finds nothing may lose a call
  missed :
      (id j rc : ℕ) (ps : List (Probe A)) (pending : Option A) (out : List B)
      → nat_beq j id ≡ true
      → Some out (calls fill id ps none)
      → Some out (calls fill id (leave j rc ∷ ps) pending)
  missed id j rc ps none out t h = h
  missed id j rc ps (some a) out t h = rw t (lost (fill a rc) h)

  found : (a : A) (pending : Option A) → Follows (some a) pending → pending ≡ some a
  found a pending (inl e) = cc
  found a pending (inr e) = sym e

  leave-Some :
      (id j rc : ℕ) (ps : List (Probe A)) (m : tmp.Table) (pending : Option A)
      → ((n : tmp.Table) (o : Option A)
          → Follows (tmp.lookup id n) o
          → Some (of_thread id (submitted tmp fill ps n)) (calls fill id ps o))
      → Follows (tmp.lookup id m) pending
      → Some
          (of_thread id (submitted tmp fill (leave j rc ∷ ps) m))
          (calls fill id (leave j rc ∷ ps) pending)
  leave-Some id j rc ps m pending ih f = elim (Bool-cases (nat_beq j id)) [
    | inl t ↦ elim (Option-cases (tmp.lookup j m)) [
      | inl n ↦
          let k : tmp.lookup id m ≡ none = rw ((nat_beq_iff j id).0 t) at n in
          rw (submitted-none tmp fill j rc ps m n)
            (missed id j rc ps pending _ t (ih m none (inl k)))
      | inr (a, s) ↦
          let k : tmp.lookup id m ≡ some a = rw ((nat_beq_iff j id).0 t) at s in
          let d : tmp.lookup id (tmp.delete j m) ≡ none =
            limited.lookup-delete j id m ∙ rw t refl in
          let p : pending ≡ some a = found a pending (rw k at f) in
          rw (submitted-some tmp fill j rc a ps m s, p, calls-same tmp fill id j rc ps a t, t)
            (kept (fill a rc) (ih (tmp.delete j m) none (inl d)))
    ]
    | inr o ↦ elim (Option-cases (tmp.lookup j m)) [
      | inl n ↦
          rw (submitted-none tmp fill j rc ps m n, calls-other tmp fill id j rc ps pending o)
            (ih m pending f)
      | inr (a, s) ↦
          rw (submitted-some tmp fill j rc a ps m s, calls-other tmp fill id j rc ps pending o, o)
            (ih (tmp.delete j m) pending (delete-Follows id j m pending o f))
    ]
  ]

  submitted-Some_from :
      (id : ℕ) (ps : List (Probe A)) (m : tmp.Table) (pending : Option A)
      → Follows (tmp.lookup id m) pending
      → Some (of_thread id (submitted tmp fill ps m)) (calls fill id ps pending)
  unfolding save
  submitted-Some_from id [] m pending f = nothing
  submitted-Some_from id (enter j a ∷ ps) m pending f =
      submitted-Some_from id ps (tmp.update j a m) (if nat_beq j id then some a else pending)
        (enter-Follows id j a m pending f)
  submitted-Some_from id (leave j rc ∷ ps) m pending f =
      leave-Some id j rc ps m pending (submitted-Some_from id ps) f

  -- Also where the table of saved data may be full, and whatever other threads do: what the program
  -- submits for a thread are some of the thread's own calls, in their order and each at most once,
  -- with the data of the latest entry before the return. A full table loses calls, but it never
  -- gives the data of an earlier call or of another thread.
  pub submitted-Some :
      (id : ℕ) (ps : List (Probe A))
      → Some (of_thread id (submitted tmp fill ps tmp.empty)) (calls fill id ps none)
  submitted-Some id ps = submitted-Some_from id ps tmp.empty none (inl (limited.lookup-empty id))

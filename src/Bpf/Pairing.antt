-- ===== src/Bpf/Pairing.antt =====
-- The way in which the programs of tracer/open, tracer/dockeropenbreakout and tracer/tcpdrop pair the entry of
-- a kernel function with its return: the entry saves its data in `tmp` under the thread, the return
-- looks them up, submits them with the return value, and deletes them.
use bpfd.Prelude.{
  ℕ, ◌≡◌, refl, sym, ap, ◌∙◌, inl, inr, true, false, Option, none, some, List, [], ◌∷◌, nat_beq,
  nat_beq_iff, if◌then◌else◌, Bool-cases, Option-cases, nat_eq, text_eq,
}
use bpfd.Bpf.{HashTable, HasRoom}

-- A probe that fires, with the ID of its thread: at the entry with the data that it gathers, at the return
-- with the register of the return value.
pub data Probe (A : Type 0) : Type 0 where
  enter : ℕ → A → Probe A
  leave : ℕ → ℕ → Probe A

abbrev pub tag : {B : Type 0} → ℕ → Option B → List (ℕ × B) → List (ℕ × B)
tag id none rest = rest
tag id (some b) rest = (id, b) ∷ rest

module _ {A B : Type 0} (tmp : HashTable A) (fill : A → ℕ → B) where
  -- `trace_entry` behind the gathering
  unfoldable pub save : ℕ → A → tmp.Table → tmp.Table
  save id a m = tmp.update id a m

  -- `trace_return`, with what it submits
  unfoldable pub trace_return : ℕ → ℕ → tmp.Table → tmp.Table × Option B
  trace_return id rc m = elim (tmp.lookup id m) [
    | none ↦ (m, none)
    | some a ↦ (tmp.delete id m, some (fill a rc))
  ]

  -- What the probes submit, each with the ID of its thread, in the order in which they fire.
  abbrev pub submitted : List (Probe A) → tmp.Table → List (ℕ × B)
  submitted [] m = []
  submitted (enter id a ∷ ps) m = submitted ps (save id a m)
  submitted (leave id rc ∷ ps) m =
      tag id (trace_return id rc m).1 (submitted ps (trace_return id rc m).0)

-- What a thread should see, whatever other threads do: the return of a call gives the data of its latest
-- entry, once, and nothing if there was none.
abbrev pub calls : {A B : Type 0} → (A → ℕ → B) → ℕ → List (Probe A) → Option A → List B
calls fill id [] pending = []
calls fill id (enter j a ∷ ps) pending = calls fill id ps (if nat_beq j id then some a else pending)
calls fill id (leave j rc ∷ ps) none = calls fill id ps none
calls fill id (leave j rc ∷ ps) (some a) =
    let done = calls fill id ps none in
    let other = calls fill id ps (some a) in if nat_beq j id then fill a rc ∷ done else other

-- what of a list carries an ID
abbrev pub of_thread : {B : Type 0} → ℕ → List (ℕ × B) → List B
of_thread id [] = []
of_thread id ((j, b) ∷ out) = let rest = of_thread id out in if nat_beq j id then b ∷ rest else rest

module _ {A B : Type 0} (tmp : HashTable A) (fill : A → ℕ → B) where
  return_none :
      (id rc : ℕ) (m : tmp.Table)
      → tmp.lookup id m ≡ none
      → trace_return tmp fill id rc m ≡ (m, none)
  unfolding trace_return
  return_none id rc m e = rw (e, trace_return) refl

  return_some :
      (id rc : ℕ) (a : A) (m : tmp.Table)
      → tmp.lookup id m ≡ some a
      → trace_return tmp fill id rc m ≡ (tmp.delete id m, some (fill a rc))
  unfolding trace_return
  return_some id rc a m e = rw (e, trace_return) refl

  pub calls-other :
      (id j rc : ℕ) (ps : List (Probe A)) (o : Option A)
      → nat_beq j id ≡ false
      → calls fill id (leave j rc ∷ ps) o ≡ calls fill id ps o
  calls-other id j rc ps none f = refl
  calls-other id j rc ps (some a) f = rw f refl

  pub submitted-none :
      (j rc : ℕ) (ps : List (Probe A)) (m : tmp.Table)
      → tmp.lookup j m ≡ none
      → submitted tmp fill (leave j rc ∷ ps) m ≡ submitted tmp fill ps m
  submitted-none j rc ps m n =
      ap (λ z. tag j z.1 (submitted tmp fill ps z.0)) (return_none j rc m n)

  pub submitted-some :
      (j rc : ℕ) (a : A) (ps : List (Probe A)) (m : tmp.Table)
      → tmp.lookup j m ≡ some a
      → submitted tmp fill (leave j rc ∷ ps) m
        ≡ (j, fill a rc) ∷ submitted tmp fill ps (tmp.delete j m)
  submitted-some j rc a ps m s =
      ap (λ z. tag j z.1 (submitted tmp fill ps z.0)) (return_some j rc a m s)

  -- the cell of the thread that returns
  pub calls-same :
      (id j rc : ℕ) (ps : List (Probe A)) (a : A)
      → nat_beq j id ≡ true
      → calls fill id (leave j rc ∷ ps) (some a) ≡ fill a rc ∷ calls fill id ps none
  calls-same id j rc ps a t = rw t refl

module _ {A B : Type 0} (tmp : HashTable A) (fill : A → ℕ → B) (room : HasRoom tmp) where
  submitted-leave :
      (id j rc : ℕ) (ps : List (Probe A)) (m : tmp.Table)
      → ((n : tmp.Table)
          → of_thread id (submitted tmp fill ps n) ≡ calls fill id ps (tmp.lookup id n))
      → of_thread id (submitted tmp fill (leave j rc ∷ ps) m)
        ≡ calls fill id (leave j rc ∷ ps) (tmp.lookup id m)
  submitted-leave id j rc ps m ih = elim (Bool-cases (nat_beq j id)) [
    | inl t ↦ elim (Option-cases (tmp.lookup j m)) [
      | inl n ↦
          let k : tmp.lookup id m ≡ none = rw ((nat_beq_iff j id).0 t) at n in
          ap (of_thread id) (submitted-none tmp fill j rc ps m n) ∙ ih m ∙ rw k refl
      | inr (a, s) ↦
          let k : tmp.lookup id m ≡ some a = rw ((nat_beq_iff j id).0 t) at s in
          let d : tmp.lookup id (tmp.delete j m) ≡ none = room.lookup-delete j id m ∙ rw t refl in
          ap (of_thread id) (submitted-some tmp fill j rc a ps m s)
          ∙ rw (t, ih (tmp.delete j m), d, k) (sym (calls-same tmp fill id j rc ps a t))
    ]
    | inr f ↦ elim (Option-cases (tmp.lookup j m)) [
      | inl n ↦
          ap (of_thread id) (submitted-none tmp fill j rc ps m n)
          ∙ ih m
          ∙ sym (calls-other tmp fill id j rc ps (tmp.lookup id m) f)
      | inr (a, s) ↦
          let d : tmp.lookup id (tmp.delete j m) ≡ tmp.lookup id m =
            room.lookup-delete j id m ∙ rw f refl in
          ap (of_thread id) (submitted-some tmp fill j rc a ps m s)
          ∙ rw (f, ih (tmp.delete j m), d)
              (sym (calls-other tmp fill id j rc ps (tmp.lookup id m) f))
    ]
  ]

  submitted_from :
      (id : ℕ) (ps : List (Probe A)) (m : tmp.Table)
      → of_thread id (submitted tmp fill ps m) ≡ calls fill id ps (tmp.lookup id m)
  unfolding save
  submitted_from id [] m = refl
  submitted_from id (enter j a ∷ ps) m =
      submitted_from id ps (tmp.update j a m) ∙ ap (calls fill id ps) (room.lookup-update j id a m)
  submitted_from id (leave j rc ∷ ps) m = submitted-leave id j rc ps m (submitted_from id ps)

  -- With a table of saved data that is never full, and whatever other threads do between its
  -- probes, the events that the program submits for a thread are those of its own calls: a return
  -- that follows an entry of the thread gives the data of the latest one, filled with the return
  -- value, once, and a return with no entry before it gives nothing.
  pub submitted-calls :
      (id : ℕ) (ps : List (Probe A))
      → of_thread id (submitted tmp fill ps tmp.empty) ≡ calls fill id ps none
  submitted-calls id ps =
      submitted_from id ps tmp.empty ∙ ap (calls fill id ps) (room.lookup-empty id)

-- ===== src/Tracer/Registry.antt =====
-- What the registry of tracers guarantees, and what `UnloadAll` does to the tracers that run.
use bpfd.Prelude.{
  ◌≡◌, refl, sym, ap, ◌∙◌, ◌⊎◌, inl, inr, true, false, Option, none, some, List, [], ◌∷◌, ◌++◌,
  append_assoc, append-nil, subst, if◌then◌else◌, Option-cases, nat_eq, length, take, take-append,
  ok, err, Text, text_beq, text_eq,
}
use bpfd.GoMap.{lookup, insert}
use bpfd.GoMap.Laws.{lookup-insert}
use bpfd.Tracer.{
  Store, InitFunc, Registered, unload_got, already_registered, register, get, unload, unload_loop,
  unload_all, list,
}

-- `Register` fails exactly for a name that is taken, and then changes nothing; otherwise the name gets
-- the given function and every other name keeps its own.
pub register_effect :
    (name : Text) (f : InitFunc) (t : Registered)
    → ((g : InitFunc) × (lookup name t ≡ some g)
        × (register name f t ≡ (err (already_registered name), t)))
      ⊎ ((t' : Registered) × (lookup name t ≡ none)
          × (register name f t ≡ (ok tt, t'))
          × ((n : Text) → lookup n t' ≡ (if text_beq name n then some f else lookup n t)))
unfolding register
register_effect name f t = elim (Option-cases (lookup name t)) [
  | inl e ↦ inr (insert name f t, e, rw (e, register), λ n. lookup-insert name n f t)
  | inr (g, e) ↦ inl (g, e, rw (e, register))
]

unload-append :
    (store : Store) (extra : Store)
    → unload (length store) (store ++ false ∷ extra) ≡ store ++ false ∷ extra
unfolding unload
unload-append [] extra = refl
unload-append (b ∷ store) extra = ap (λ t. b ∷ t) (unload-append store extra)

-- the objects of `store` are the first of `s`, as they were
abbrev Keeps : Store → Option Store → Type 0
Keeps store none = Unit
Keeps store (some s) = (extra : Store) × (s ≡ store ++ extra)

Keeps-append : (store x : Store) (o : Option Store) → Keeps (store ++ x) o → Keeps store o
Keeps-append store x none k = tt
Keeps-append store x (some s) (extra, e) = (x ++ extra, e ∙ append_assoc store x extra)

pub unload_got-get :
    (p : Text) (tracers : Registered) (store : Store)
    → lookup p tracers ≡ some true
    → unload_got (get p tracers store) ≡ some (store ++ false ∷ [])
unfolding get unload_got
unload_got-get p tracers store e = rw (e, get) (ap some (unload-append store []))

pub unload_got-failed :
    (p : Text) (tracers : Registered) (store : Store)
    → (lookup p tracers ≡ none) ⊎ (lookup p tracers ≡ some false)
    → unload_got (get p tracers store) ≡ none
unfolding get unload_got
unload_got-failed p tracers store (inl e) = rw (e, get) refl
unload_got-failed p tracers store (inr e) = rw (e, get) refl

unload_loop-Keeps :
    (ps : List Text) (tracers : Registered) (store : Store)
    → Keeps store (unload_loop ps tracers store)
unfolding unload_loop
unload_loop-Keeps [] tracers store = ([], sym (append-nil store))
unload_loop-Keeps (p ∷ ps) tracers store = elim (Option-cases (lookup p tracers)) [
  | inl e ↦ rw (unload_got-failed p tracers store (inl e), unload_loop) tt
  | inr (true, e) ↦
      rw (unload_got-get p tracers store e, unload_loop)
        (Keeps-append store (false ∷ []) _ (unload_loop-Keeps ps tracers (store ++ false ∷ [])))
  | inr (false, e) ↦ rw (unload_got-failed p tracers store (inr e), unload_loop) tt
]

take-Keeps : (store after : Store) → Keeps store (some after) → take (length store) after ≡ store
take-Keeps store after (extra, e) = rw (e) (take-append store extra)

-- `UnloadAll` leaves every tracer object that existed before it exactly as it was, loaded ones loaded:
-- it unloads the new objects that `Get` makes.
pub unload_all-keeps :
    (tracers : Registered) (store after : Store)
    → unload_all tracers store ≡ some after
    → take (length store) after ≡ store
unfolding unload_all
unload_all-keeps tracers store after h =
    take-Keeps store after (subst (Keeps store) h (unload_loop-Keeps (list tracers) tracers store))

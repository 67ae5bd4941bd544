-- ===== src/Daemon/Shutdown.antt =====
-- daemon.go: the goroutine that waits for a signal, unloads the tracers and exits.
use bpfd.Prelude.{
  ℕ, ◌≡◌, refl, sym, ap, ◌∙◌, ◌≢◌, ◌⊎◌, inl, inr, Bool, true, false, Option, none, some, List, [],
  ◌∷◌, ◌++◌, append_assoc, append-nil, nat_eq, length, replicate, All, In, here, there, Text,
  text_eq,
}
use bpfd.GoMap.{lookup}
use bpfd.Tracer.{Store, Registered, list, unload_loop, unload_all}
use bpfd.Tracer.Registry.{unload_got-get, unload_got-failed}

-- What a signal leaves: the process exits with a code, the tracer objects being as in the store, or it
-- crashes by a panic.
pub data Ended : Type 0 where
  exited : ℕ → Store → Ended
  crashed : Ended

-- the body of `for sig := range c`
unfoldable pub handle_signal : Registered → Store → Ended
unfolding unload_all
handle_signal tracers store = elim (unload_all tracers store) [
  | none ↦ crashed
  | some after ↦ exited 0 after
]

-- some new objects, with nothing loaded
abbrev pub unloaded : ℕ → Store
unloaded n = replicate n false

-- Every `Init` of the names works.
abbrev pub AllMade : Registered → List Text → Type 0
AllMade ts names = All (λ n. lookup n ts ≡ some true) names

-- the `Init` of one of them fails
abbrev pub OneFails : Registered → List Text → Type 0
OneFails ts names = (n : Text) × In n names × (lookup n ts ≢ some true)

init-cases : (o : Option Bool) → (o ≡ some true) ⊎ ((o ≡ none) ⊎ (o ≡ some false))
init-cases none = inr (inl refl)
init-cases (some true) = inl refl
init-cases (some false) = inr (inr refl)

not_made : (o : Option Bool) → (o ≡ none) ⊎ (o ≡ some false) → o ≢ some true
not_made o (inl e) = λ q. cc
not_made o (inr e) = λ q. cc

unload_loop_cases :
    (names : List Text) (ts : Registered) (store : Store)
    → (AllMade ts names × (unload_loop names ts store ≡ some (store ++ unloaded (length names))))
      ⊎ (OneFails ts names × (unload_loop names ts store ≡ none))
unfolding unload_loop
unload_loop_cases [] ts store = inl (tt, ap some (sym (append-nil store)))
unload_loop_cases (p ∷ names) ts store = elim (init-cases (lookup p ts)) [
  | inr f ↦ inr (
    (p, here refl, not_made (lookup p ts) f),
    rw (unload_got-failed p ts store f, unload_loop) refl,
  )
  | inl e ↦
      let made = unload_got-get p ts store e in
      elim (unload_loop_cases names ts (store ++ false ∷ [])) [
        | inl (all, q) ↦ inl (
          (e, all),
          rw (made, unload_loop)
              (q ∙ ap some (append_assoc store (false ∷ []) (unloaded (length names)))),
        )
        | inr ((n, i, f), q) ↦ inr ((n, there i, f), rw (made, unload_loop) q)
      ]
]

-- What a signal does to a daemon with any tracer objects: if every `Init` works, the process exits with the
-- code 0, and every object that there was is as it was, the loaded ones loaded; all that was unloaded are
-- as many new objects as there are tracers. If an `Init` fails, the process crashes instead.
pub handle_signal_cases :
    (ts : Registered) (store : Store)
    → (AllMade ts (list ts)
        × (handle_signal ts store ≡ exited 0 (store ++ unloaded (length (list ts)))))
      ⊎ (OneFails ts (list ts) × (handle_signal ts store ≡ crashed))
unfolding handle_signal unload_all
handle_signal_cases ts store = elim (unload_loop_cases (list ts) ts store) [
  | inl (all, q) ↦ inl (all, rw (q, handle_signal) refl)
  | inr (one, q) ↦ inr (one, rw (q, handle_signal) refl)
]

-- ===== src/Proc/Capabilities.antt =====
-- `GetCapabilities` of proc/proc.go. The package capability is a parameter: the capabilities that it lists, by
-- their names, and what `NewPid` answers, an error or which capabilities a set of the process has.
use bpfd.Prelude.{
  ◌≡◌, refl, sym, ap, ◌∙◌, ◌⊎◌, inl, inr, Bool, true, false, none, some, List, [], ◌∷◌, ◌++◌,
  append_assoc, append-nil, if◌then◌else◌, Bool-cases, nat_eq, Result, ok, err, Result-cases, ℤ,
  Text, codes, text_beq, text_beq_refl, text_eq,
}
use bpfd.GoMap.{lookup, insert}
use bpfd.GoMap.Laws.{lookup-insert}

-- the sets that `Get` is asked for: `CAPS` stands for the effective, permitted and inheritable ones together
pub data CapSet : Type 0 where
  caps bounding ambient : CapSet

-- `caps.Get(which, cap)`
abbrev pub Capabilities : Type 0
Capabilities = CapSet → Text → Bool

abbrev pub Allowed : Type 0
Allowed = List (Text × List Text)

-- the key of a set in the map of the answer
unfoldable pub key : CapSet → Text
key caps = codes "EFFECTIVE | PERMITTED | INHERITABLE"
key bounding = codes "BOUNDING"
key ambient = codes "AMBIENT"

-- `allowedCaps[key]` for a missing key is the nil slice
unfoldable pub entry : Text → Allowed → List Text
entry k allowed = elim (lookup k allowed) [ none ↦ [] | some names ↦ names ]

-- `if caps.Get(which, cap) { allowedCaps[key] = append(allowedCaps[key], cap.String()) }`
unfoldable pub add_if : Capabilities → CapSet → Text → Allowed → Allowed
unfolding key entry
add_if get which cap allowed =
    if get which cap
    then insert (key which) (entry (key which) allowed ++ cap ∷ []) allowed
    else allowed

-- the loop over all capabilities
unfoldable pub collect_caps : Capabilities → List Text → Allowed → Allowed
unfolding add_if
collect_caps get [] allowed = allowed
collect_caps get (cap ∷ all) allowed =
    collect_caps get all
      (add_if get ambient cap (add_if get bounding cap (add_if get caps cap allowed)))

-- `GetCapabilities`
unfoldable pub get_capabilities :
    List Text → (ℤ → Result Text Capabilities) → ℤ → Result Text Allowed
unfolding collect_caps
get_capabilities all new_pid pid = elim (new_pid pid) [
  | err e ↦ err e
  | ok get ↦
      ok (collect_caps get all ((key caps, []) ∷ (key bounding, []) ∷ (key ambient, []) ∷ []))
]

-- the capabilities of a list that a set has, in the order of the list
abbrev pub held : Capabilities → CapSet → List Text → List Text
held get which [] = []
held get which (cap ∷ all) = if get which cap then cap ∷ held get which all else held get which all

entry-insert :
    (k j : Text) (names : List Text) (allowed : Allowed)
    → entry j (insert k names allowed) ≡ (if text_beq k j then names else entry j allowed)
unfolding entry
entry-insert k j names allowed = elim (Bool-cases (text_beq k j)) [
  | inl t ↦ rw (lookup-insert k j names allowed, entry, t) refl
  | inr f ↦ rw (lookup-insert k j names allowed, entry, f) refl
]

add_if-true :
    (get : Capabilities) (which : CapSet) (cap : Text) (allowed : Allowed)
    → get which cap ≡ true
    → add_if get which cap allowed
      ≡ insert (key which) (entry (key which) allowed ++ cap ∷ []) allowed
unfolding add_if
add_if-true get which cap allowed t = rw (t, add_if) refl

add_if-false :
    (get : Capabilities) (which : CapSet) (cap : Text) (allowed : Allowed)
    → get which cap ≡ false
    → add_if get which cap allowed ≡ allowed
unfolding add_if
add_if-false get which cap allowed f = rw (f, add_if) refl

-- what is appended under a key
abbrev one_if : Bool → Text → List Text
one_if b cap = if b then cap ∷ [] else []

entry-add_same :
    (get : Capabilities) (which : CapSet) (cap : Text) (allowed : Allowed)
    → entry (key which) (add_if get which cap allowed)
      ≡ entry (key which) allowed ++ one_if (get which cap) cap
entry-add_same get which cap allowed = elim (Bool-cases (get which cap)) [
  | inl t ↦
      rw
        (
          add_if-true get which cap allowed t,
          entry-insert (key which) (key which) (entry (key which) allowed ++ cap ∷ []) allowed,
          text_beq_refl (key which),
          t,
        )
        refl
  | inr f ↦
      rw (add_if-false get which cap allowed f, f) (sym (append-nil (entry (key which) allowed)))
]

entry-add_other :
    (get : Capabilities) (which other : CapSet) (cap : Text) (allowed : Allowed)
    → text_beq (key which) (key other) ≡ false
    → entry (key other) (add_if get which cap allowed) ≡ entry (key other) allowed
entry-add_other get which other cap allowed ne = elim (Bool-cases (get which cap)) [
  | inl t ↦
      rw
        (
          add_if-true get which cap allowed t,
          entry-insert (key which) (key other) (entry (key which) allowed ++ cap ∷ []) allowed,
          ne,
        )
        refl
  | inr f ↦ rw (add_if-false get which cap allowed f) refl
]

abbrev add_all : Capabilities → Text → Allowed → Allowed
add_all get cap allowed =
    add_if get ambient cap (add_if get bounding cap (add_if get caps cap allowed))

entry-add_all :
    (get : Capabilities) (which : CapSet) (cap : Text) (allowed : Allowed)
    → entry (key which) (add_all get cap allowed)
      ≡ entry (key which) allowed ++ one_if (get which cap) cap
unfolding key text_beq
entry-add_all get caps cap allowed =
    entry-add_other get ambient caps cap (add_if get bounding cap (add_if get caps cap allowed))
      refl
    ∙ entry-add_other get bounding caps cap (add_if get caps cap allowed) refl
    ∙ entry-add_same get caps cap allowed
entry-add_all get bounding cap allowed =
    entry-add_other get ambient bounding cap (add_if get bounding cap (add_if get caps cap allowed))
      refl
    ∙ entry-add_same get bounding cap (add_if get caps cap allowed)
    ∙ ap (λ l. l ++ one_if (get bounding cap) cap)
        (entry-add_other get caps bounding cap allowed refl)
entry-add_all get ambient cap allowed =
    entry-add_same get ambient cap (add_if get bounding cap (add_if get caps cap allowed))
    ∙ ap (λ l. l ++ one_if (get ambient cap) cap)
        (entry-add_other get bounding ambient cap (add_if get caps cap allowed) refl
          ∙ entry-add_other get caps ambient cap allowed refl)

held-cons :
    (get : Capabilities) (which : CapSet) (cap : Text) (all : List Text)
    → one_if (get which cap) cap ++ held get which all ≡ held get which (cap ∷ all)
held-cons get which cap all = elim (Bool-cases (get which cap)) [
  | inl t ↦ rw t refl
  | inr f ↦ rw f refl
]

entry-collect_caps :
    (get : Capabilities) (which : CapSet) (all : List Text) (allowed : Allowed)
    → entry (key which) (collect_caps get all allowed)
      ≡ entry (key which) allowed ++ held get which all
unfolding collect_caps
entry-collect_caps get which [] allowed = sym (append-nil (entry (key which) allowed))
entry-collect_caps get which (cap ∷ all) allowed =
    entry-collect_caps get which all (add_all get cap allowed)
    ∙ ap (λ l. l ++ held get which all) (entry-add_all get which cap allowed)
    ∙ append_assoc (entry (key which) allowed) (one_if (get which cap) cap) (held get which all)
    ∙ ap (λ l. entry (key which) allowed ++ l) (held-cons get which cap all)

empty_entries :
    (which : CapSet)
    → entry (key which) ((key caps, []) ∷ (key bounding, []) ∷ (key ambient, []) ∷ []) ≡ []
unfolding entry key lookup text_beq
empty_entries caps = refl
empty_entries bounding = refl
empty_entries ambient = refl

-- Where the package finds the process, the answer has under the key of each of the three sets
-- exactly the capabilities that the set has, in the order in which the package lists them; where it
-- does not, its error is passed on.
pub get_capabilities_cases :
    (all : List Text) (new_pid : ℤ → Result Text Capabilities) (pid : ℤ)
    → ((get : Capabilities) × (allowed : Allowed) × (new_pid pid ≡ ok get)
        × (get_capabilities all new_pid pid ≡ ok allowed)
        × ((which : CapSet) → entry (key which) allowed ≡ held get which all))
      ⊎ ((e : Text) × (new_pid pid ≡ err e) × (get_capabilities all new_pid pid ≡ err e))
unfolding get_capabilities
get_capabilities_cases all new_pid pid = elim (Result-cases (new_pid pid)) [
  | inl (get, h) ↦ inl (
    get,
    _,
    h,
    rw (h, get_capabilities) refl,
    λ which.
        entry-collect_caps get which all
          ((key caps, []) ∷ (key bounding, []) ∷ (key ambient, []) ∷ [])
        ∙ ap (λ l. l ++ held get which all) (empty_entries which),
  )
  | inr (e, h) ↦ inr (e, h, rw (h, get_capabilities) refl)
]

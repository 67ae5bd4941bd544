-- ===== src/Daemon/Builtin/Laws.antt =====
-- What the compiled tracers and actions mean for the start of the daemon.
use bpfd.Prelude.{
  ℕ, ◌≡◌, refl, sym, ◌∙◌, ◌↔◌, inl, inr, Bool, true, false, some, List, [], ◌∷◌, Bool-cases,
  Option-cases, nat_eq, In, In-cons, here, there, Result, ok, err, Result-cases, Text, codes,
  text_beq, text_beq_iff, text_eq,
}
use bpfd.Grpc.{Rule}
use bpfd.GoMap.{lookup, keys, insert}
use bpfd.Proc.{Host}
use bpfd.Action
use bpfd.Action.{list_actions, register_action}
use bpfd.Tracer
use bpfd.Tracer.{Store, get, list, unknown, init_failed}
use bpfd.Api.{Server}
use bpfd.Api.Loop.{Performed}
use bpfd.Tracer.Loading.{Program, load_all}
use bpfd.Tracer.Loading.Laws.{AreWatching}
use bpfd.Daemon.{System, programs, start, make_tracers}
use bpfd.Daemon.Builtin.{builtin_tracers, builtin_actions}
use bpfd.Daemon.Laws.{start-actions, start-tracers, start-AreWatching}
use bpfd.System.{Reach}
use bpfd.System.Invariant.{IsServing, start-Reach-IsServing}

-- Two maps with the same entries: the order in which a range gives them is Go's choice.
abbrev pub SameMap : {V : Type 0} → List (Text × V) → List (Text × V) → Type 0
SameMap m m' = (k : Text) → lookup k m ≡ lookup k m'

abbrev pub tracer_names : List Text
tracer_names =
    codes "bashreadline"
    ∷ codes "dockeropenbreakout"
    ∷ codes "exec"
    ∷ codes "open"
    ∷ codes "tcpdrop"
    ∷ []

abbrev pub action_names : List Text
action_names = codes "interrupt" ∷ codes "kill" ∷ codes "stdout" ∷ []

-- `Get` that succeeds found a function that does not fail
get-ok :
    (n : Text) (ts : Tracer.Registered) (store : Store) (p : ℕ)
    → (get n ts store).0 ≡ ok p
    → lookup n ts ≡ some true
unfolding get
get-ok n ts store p q = elim (Option-cases (lookup n ts)) [
  | inl e ↦ absurd (let z : (get n ts store).0 ≡ err (unknown n) = rw (e, get) refl in cc)
  | inr (true, e) ↦ e
  | inr (false, e) ↦
      absurd (let z : (get n ts store).0 ≡ err (init_failed n) = rw (e, get) refl in cc)
]

-- where the loop over the names gets through, no `Init` failed
make_tracers-ok :
    (ts : Tracer.Registered) (names : List Text) (store st : Store)
    → make_tracers ts names store ≡ ok st
    → (n : Text) → In n names
    → lookup n ts ≡ some true
unfolding make_tracers
make_tracers-ok ts [] store st q n i = elim i [ ]
make_tracers-ok ts (p ∷ names) store st q n i = elim (Result-cases (get p ts store).0) [
  | inr (x, g) ↦
      absurd (let z : make_tracers ts (p ∷ names) store ≡ err x = rw (g, make_tracers) refl in cc)
  | inl (ptr, g) ↦
      let z : make_tracers ts (p ∷ names) store ≡ make_tracers ts names (get p ts store).1 =
        rw (g, make_tracers) refl in
      elim (In-cons i) [
        | inl e ↦ rw e (get-ok p ts store ptr g)
        | inr j ↦ make_tracers-ok ts names (get p ts store).1 st (sym z ∙ q) n j
      ]
]

module _ {V : Type 0} where
  lookup-keys : (k : Text) (m : List (Text × V)) (v : V) → lookup k m ≡ some v → In k (keys m)
  unfolding lookup keys
  lookup-keys k [] v h = cc
  lookup-keys k ((j, w) ∷ m) v h = elim (Bool-cases (text_beq j k)) [
    | inl t ↦ here (sym ((text_beq_iff j k).0 t))
    | inr f ↦ there (lookup-keys k m v (rw f at h))
  ]

  keys-lookup : (k : Text) (m : List (Text × V)) → In k (keys m) → (v : V) × (lookup k m ≡ some v)
  unfolding lookup keys
  keys-lookup k [] i = elim i [ ]
  keys-lookup k ((j, w) ∷ m) i = elim (Bool-cases (text_beq j k)) [
    | inl t ↦ (w, rw t refl)
    | inr f ↦ elim (In-cons i) [
      | inl e ↦ absurd (let z : text_beq j k ≡ true = (text_beq_iff j k).1 (sym e) in cc)
      | inr l ↦ let (v, e) = keys-lookup k m l in (v, rw f e)
    ]
  ]

  -- maps with the same entries have the same keys
  SameMap-keys :
      (m m' : List (Text × V)) → SameMap m m' → (k : Text) → In k (keys m) → In k (keys m')
  SameMap-keys m m' same k i =
      let (v, e) = keys-lookup k m i in lookup-keys k m' v (sym (same k) ∙ e)

  SameMap-sym : (m m' : List (Text × V)) → SameMap m m' → SameMap m' m
  SameMap-sym m m' same k = sym (same k)

builtin_names : (docker : Bool) → list (builtin_tracers docker) ≡ tracer_names
unfolding builtin_tracers lookup insert list text_beq
builtin_names docker = refl

builtin_action_names : list_actions builtin_actions ≡ action_names
unfolding builtin_actions lookup insert list_actions text_beq
builtin_action_names = refl

builtin_docker :
    (docker : Bool) → lookup (codes "dockeropenbreakout") (builtin_tracers docker) ≡ some docker
unfolding builtin_tracers lookup insert text_beq
builtin_docker docker = refl

-- the names that a range gives, in whatever order
In-names :
    (docker : Bool) (ts : Tracer.Registered) (n : Text)
    → SameMap ts (builtin_tracers docker)
    → In n (list ts) ↔ In n tracer_names
unfolding list
In-names docker ts n same = (
  λ i. rw⁻¹ (builtin_names docker) (SameMap-keys ts (builtin_tracers docker) same n i),
  λ i.
      SameMap-keys (builtin_tracers docker) ts (SameMap-sym ts (builtin_tracers docker) same) n
        (rw (builtin_names docker) i),
)

In-action_names :
    (acts : Action.Registered) (n : Text)
    → SameMap acts builtin_actions
    → In n (list_actions acts) ↔ In n action_names
unfolding list_actions
In-action_names acts n same = (
  λ i. rw⁻¹ builtin_action_names (SameMap-keys acts builtin_actions same n i),
  λ i.
      SameMap-keys builtin_actions acts (SameMap-sym acts builtin_actions same) n
        (rw builtin_action_names i),
)

-- The daemon as it is compiled, with its five tracers and three actions in whatever order Go ranges over the
-- registries: it serves only if the docker client could be made. Then it knows exactly the five tracers, each
-- of them was loaded and runs, it has made exactly the three actions, and whatever its tracers, its clients and their streams do, a server
-- that it reaches serves: its table is consistent, and its actions are made.
pub start_builtin :
    (decode : Text → Result Text Rule) (h : Host) (system : System) (docker : Bool)
    (ts : Tracer.Registered) (acts : Action.Registered) (s t : Server) (done : Performed)
    → SameMap ts (builtin_tracers docker)
    → SameMap acts builtin_actions
    → start decode h system ts acts ≡ ok s
    → Reach h s done t
    → (docker ≡ true)
      × ((n : Text) → In n s.tracer_list ↔ In n tracer_names)
      × ((qs : List Program) × (load_all system.bcc (programs system s.tracer_list) ≡ (ok tt, qs))
          × AreWatching system.bcc (programs system s.tracer_list) qs)
      × ((n : Text) → In n s.actions ↔ In n action_names)
      × IsServing t
start_builtin decode h system docker ts acts s t done same_ts same_acts q r =
    let (known, (st, m)) = start-tracers decode h system ts acts s q in
    let (made, listed) = start-actions decode h system ts acts s q in
    let breakout = codes "dockeropenbreakout" in
    let found =
      make_tracers-ok ts (list ts) [] st m breakout
        ((In-names docker ts breakout same_ts).1 (there (here refl))) in
    let e : some docker ≡ some true =
      sym (builtin_docker docker) ∙ sym (same_ts breakout) ∙ found in
    let stdout = (In-action_names acts (codes "stdout") same_acts).1 (there (there (here refl))) in
    (
      cc e,
      λ n. rw known (In-names docker ts n same_ts),
      rw known (start-AreWatching decode h system ts acts s q),
      λ n. rw made (In-action_names acts n same_acts),
      start-Reach-IsServing decode h system ts acts s t done q stdout r,
    )

-- ===== src/Action/Effects.antt =====
-- What the actions of action/stdout, action/kill and action/interrupt do to the world, and what becomes of a
-- list of actions that the goroutine of a tracer runs: `action.Do(event)`, whose error is dropped.
use bpfd.Prelude.{
  ℕ, ◌≡◌, refl, sym, ◌↔◌, inl, inr, Option, none, List, [], ◌∷◌, ◌++◌, subst, if◌then◌else◌,
  Bool-cases, Option-cases, nat_eq, In, In-cons, here, there, In-append, In-append_right,
  In-append_left, Result, ok, err, Text, codes, text_beq, text_beq_iff, text_eq,
}
use bpfd.Grpc.{Event}
use bpfd.Action.{
  ActionError, find_failed, signal_failed, stdout_line, signal_process, interrupt_process,
}

-- What the operating system answers to `os.FindProcess`, `Kill` and `Signal`, each with its error.
pub record Os : Type 0 where
  pub find : ℕ → Option Text
  pub kill : ℕ → Option Text
  pub interrupt : ℕ → Option Text

-- A line on the standard output, or a signal that reached the process with a PID.
pub data Effect : Type 0 where
  printed : Text → Effect
  killed interrupted : ℕ → Effect

abbrev pub Outcome : Type 0
Outcome = List Effect × Result ActionError (Unit {0})

-- a signal has an effect if nothing fails
abbrev pub signalled : Effect → Result ActionError (Unit {0}) → Outcome
signalled x (ok u) = (x ∷ [], ok u)
signalled x (err e) = ([], err e)

-- `Do` of "stdout"
unfoldable pub print_event : Event → Outcome
unfolding stdout_line
print_event e = (printed (stdout_line e) ∷ [], ok tt)

-- `Do` of the action with a name
unfoldable pub do_action : Os → Text → Event → Outcome
unfolding signal_process interrupt_process print_event
do_action os a e =
    if text_beq a (codes "stdout")
    then print_event e
    else if text_beq a (codes "kill")
    then signalled (killed e.pid) (signal_process os.find os.kill e)
    else if text_beq a (codes "interrupt")
    then signalled (interrupted e.pid) (interrupt_process os.find os.interrupt e)
    else ([], ok tt)

-- the actions one after the other
unfoldable pub do_all : Os → List (Text × Event) → List Effect
unfolding do_action
do_all os [] = []
do_all os ((a, e) ∷ rest) = (do_action os a e).0 ++ do_all os rest

do_all-In :
    (os : Os) (x : Effect) (done : List (Text × Event))
    → In x (do_all os done)
    → (a : Text) × (e : Event) × In (a, e) done × In x (do_action os a e).0
unfolding do_all
do_all-In os x [] i = elim i [ ]
do_all-In os x ((a, e) ∷ rest) i = elim (In-append (do_action os a e).0 (do_all os rest) i) [
  | inl j ↦ (a, e, here refl, j)
  | inr j ↦ let (b, y, k, l) = do_all-In os x rest j in (b, y, there k, l)
]

In-do_all :
    (os : Os) (x : Effect) (done : List (Text × Event)) (a : Text) (e : Event)
    → In (a, e) done
    → In x (do_action os a e).0
    → In x (do_all os done)
unfolding do_all
In-do_all os x [] a e i j = elim i [ ]
In-do_all os x ((b, y) ∷ rest) a e i j = elim (In-cons i) [
  | inl p ↦ In-append_left (do_all os rest) (subst (λ z. In x (do_action os z.0 z.1).0) p j)
  | inr k ↦ In-append_right (do_action os b y).0 (do_all os rest) (In-do_all os x rest a e k j)
]

signalled-In :
    (x y : Effect) (r : Result ActionError (Unit {0}))
    → In y (signalled x r).0
    → (y ≡ x) × (r ≡ ok tt)
signalled-In x y (ok tt) i = elim (In-cons i) [ inl p ↦ (p, refl) | inr k ↦ elim k [ ] ]
signalled-In x y (err e) i = elim i [ ]

signal_process-ok :
    (find kill : ℕ → Option Text) (e : Event)
    → (signal_process find kill e ≡ ok tt) ↔ ((find e.pid ≡ none) × (kill e.pid ≡ none))
unfolding signal_process
signal_process-ok find kill e = (
  λ q. elim (Option-cases (find e.pid)) [
    | inr (x, f) ↦ absurd (
        let z : signal_process find kill e ≡ err (find_failed e.pid x) =
          rw (f, signal_process) refl in
        cc)
    | inl f ↦ elim (Option-cases (kill e.pid)) [
      | inr (x, k) ↦ absurd (
          let z : signal_process find kill e ≡ err (signal_failed e.pid x) =
            rw (f, signal_process, k) refl in
          cc)
      | inl k ↦ (f, k)
    ]
  ],
  λ (f, k). rw (f, k, signal_process) refl,
)

not_killed : (n : ℕ) (xs : List Effect) → In (killed n) xs → xs ≡ [] → ⊥
not_killed n xs i q = elim (let k : In (killed n) [] = rw q at i in k) [ ]

-- the action that kills
killing :
    (os : Os) (e : Event) (n : ℕ)
    → In (killed n) (signalled (killed e.pid) (signal_process os.find os.kill e)).0
    → (e.pid ≡ n) × (os.find n ≡ none) × (os.kill n ≡ none)
killing os e n i =
    let (p, q) = signalled-In (killed e.pid) (killed n) (signal_process os.find os.kill e) i in
    let r : e.pid ≡ n = cc in
    let (f, k) = (signal_process-ok os.find os.kill e).0 q in
    (r, subst (λ m. os.find m ≡ none) r f, subst (λ m. os.kill m ≡ none) r k)

-- Which action kills, and which process.
do_action-killed :
    (os : Os) (a : Text) (e : Event) (n : ℕ)
    → In (killed n) (do_action os a e).0
    → (a ≡ codes "kill") × (e.pid ≡ n) × (os.find n ≡ none) × (os.kill n ≡ none)
unfolding do_action print_event
do_action-killed os a e n i = elim (Bool-cases (text_beq a (codes "stdout"))) [
  | inl p ↦ elim (In-cons (rw (p, do_action) at i)) [ inl q ↦ absurd (cc q) | inr k ↦ elim k [ ] ]
  | inr p ↦ elim (Bool-cases (text_beq a (codes "kill"))) [
    | inl k ↦
        let (q, f, g) = killing os e n (rw (p, k, do_action) at i) in
        ((text_beq_iff a (codes "kill")).0 k, q, f, g)
    | inr k ↦ elim (Bool-cases (text_beq a (codes "interrupt"))) [
      | inl j ↦
          let (q, r) =
            signalled-In (interrupted e.pid) (killed n) (interrupt_process os.find os.interrupt e)
              (rw (p, k, j, do_action) at i) in
          absurd (cc q)
      | inr j ↦ elim (let z : In (killed n) [] = rw (p, k, j, do_action) at i in z) [ ]
    ]
  ]
]

do_kill :
    (os : Os) (e : Event)
    → os.find e.pid ≡ none
    → os.kill e.pid ≡ none
    → In (killed e.pid) (do_action os (codes "kill") e).0
unfolding do_action text_beq signal_process
do_kill os e f k = rw (f, k, do_action, signal_process) (here refl)

-- A process is killed exactly when one of the actions that are run is "kill", with an event that has its PID,
-- and the system finds it and lets it be killed. The other actions have no part in it, in whatever order
-- they stand, and whether they fail or not.
pub do_all-killed :
    (os : Os) (done : List (Text × Event)) (n : ℕ)
    → In (killed n) (do_all os done) ↔ (
        ((e : Event) × In (codes "kill", e) done × (e.pid ≡ n))
        × (os.find n ≡ none)
        × (os.kill n ≡ none))
do_all-killed os done n = (
  λ i.
      let (a, e, j, k) = do_all-In os (killed n) done i in
      let (p, q, f, g) = do_action-killed os a e n k in
      ((e, subst (λ b. In (b, e) done) p j, q), f, g),
  λ ((e, j, q), f, g).
      subst (λ m. In (killed m) (do_all os done)) q
        (In-do_all os (killed e.pid) done (codes "kill") e j (
          do_kill os e (subst (λ m. os.find m ≡ none) (sym q) f)
            (subst (λ m. os.kill m ≡ none) (sym q) g))),
)

-- ===== src/Rules/Validate.antt =====
-- What `Validate` and `ValidateTracersAndActions` accept.
use bpfd.Prelude.{
  ◌≡◌, refl, ◌↔◌, inl, inr, true, false, List, [], ◌∷◌, arith, Bool-cases, ◌==◌, nat_eq, is_empty,
  All, In, any_sound, any_complete, ok, Text, text_beq_refl, text_beq_iff, text_eq,
}
use bpfd.Grpc.{Rule}
use bpfd.Proc.Runtime.{is_valid_container_runtime}
use bpfd.Rules.{is_in, check_runtimes, validate, check_actions, validate_tracers_and_actions}

-- A rule with a name, a tracer, and container runtimes that are all known.
pub record IsValid (rule : Rule) : Type 0 where
  pub named : is_empty rule.name ≡ false
  pub traced : is_empty rule.tracer ≡ false
  pub runtimes : All (λ r. is_valid_container_runtime r ≡ true) rule.container_runtimes

check_runtimes_sound :
    (n : Text) (rs : List Text)
    → check_runtimes n rs ≡ ok tt
    → All (λ r. is_valid_container_runtime r ≡ true) rs
unfolding check_runtimes
check_runtimes_sound n [] h = tt
check_runtimes_sound n (r ∷ rs) h = elim (Bool-cases (is_valid_container_runtime r)) [
  | inl e ↦ (e, check_runtimes_sound n rs (rw e at h))
  | inr e ↦ absurd (cc (h, e))
]

check_runtimes_complete :
    (n : Text) (rs : List Text)
    → All (λ r. is_valid_container_runtime r ≡ true) rs
    → check_runtimes n rs ≡ ok tt
unfolding check_runtimes
check_runtimes_complete n [] h = refl
check_runtimes_complete n (r ∷ rs) (hr, h) = rw hr (check_runtimes_complete n rs h)

-- `Validate` returns no error exactly for a rule that has a name and a tracer and whose container
-- runtimes are all valid.
pub validate_iff : (rule : Rule) → (validate rule ≡ ok tt) ↔ IsValid rule
unfolding validate
validate_iff rule = (
  λ h. record {
    named = ground arith;
    traced = ground arith;
    runtimes = check_runtimes_sound rule.name rule.container_runtimes (ground arith);
  },
  λ v.
      rw (v.named, v.traced) (check_runtimes_complete rule.name rule.container_runtimes v.runtimes),
)

is_in_iff : (a : List Text) (s : Text) → (is_in a s ≡ true) ↔ In s a
unfolding is_in
is_in_iff a s = (
  λ h. let (b, i, e) = any_sound (λ b. b == s) a h in rw ((text_beq_iff b s).0 e) at i,
  λ i. any_complete (λ b. b == s) s a i (text_beq_refl s),
)

-- A rule whose tracer and actions are all among those given.
pub record IsSupported (rule : Rule) (tracers actions : List Text) : Type 0 where
  pub known_tracer : In rule.tracer tracers
  pub known_actions : All (λ a. In a actions) rule.actions

check_actions_sound :
    (n : Text) (actions rest : List Text)
    → check_actions n actions rest ≡ ok tt
    → All (λ a. In a actions) rest
unfolding check_actions
check_actions_sound n actions [] h = tt
check_actions_sound n actions (a ∷ rest) h = elim (Bool-cases (is_in actions a)) [
  | inl e ↦ ((is_in_iff actions a).0 e, check_actions_sound n actions rest (rw e at h))
  | inr e ↦ absurd (cc (h, e))
]

check_actions_complete :
    (n : Text) (actions rest : List Text)
    → All (λ a. In a actions) rest
    → check_actions n actions rest ≡ ok tt
unfolding check_actions
check_actions_complete n actions [] h = refl
check_actions_complete n actions (a ∷ rest) (i, h) =
    rw ((is_in_iff actions a).1 i) (check_actions_complete n actions rest h)

-- `ValidateTracersAndActions` returns no error exactly for a rule whose tracer is among the tracers
-- given and whose actions are all among the actions given.
pub validate_tracers_and_actions_iff :
    (rule : Rule) (tracers actions : List Text)
    → (validate_tracers_and_actions rule tracers actions ≡ ok tt) ↔ IsSupported rule tracers actions
unfolding validate_tracers_and_actions
validate_tracers_and_actions_iff rule tracers actions = (
  λ h. elim (Bool-cases (is_in tracers rule.tracer)) [
    | inl e ↦ record {
      known_tracer = (is_in_iff tracers rule.tracer).0 e;
      known_actions = check_actions_sound rule.name actions rule.actions (rw e at h);
    }
    | inr e ↦ absurd (cc (h, e))
  ],
  λ v.
      rw ((is_in_iff tracers rule.tracer).1 v.known_tracer)
        (check_actions_complete rule.name actions rule.actions v.known_actions),
)

-- ===== src/Tcp/Laws.antt =====
-- The prints of flags and states tell them apart.
use bpfd.Prelude.{
  ℕ, zero, suc, ◌+◌, ◌<◌, ◌≡◌, refl, sym, ap, ◌∙◌, ◌≢◌, ◌↔◌, ◌⊎◌, inl, inr, Bool, true, false, not,
  ◌&&◌, Option, none, some, List, [], ◌∷◌, arith, ltb, nat_beq, nat_beq_iff, subst, if◌then◌else◌,
  Bool-cases, ◌==◌, nat_eq, Text, codes, text_beq, text_eq,
}
use bpfd.Strings.{split}
use bpfd.Tcp.{states, flags_to_string}

-- The number behind a word of the print, if it is the name of a flag.
abbrev pub flag_value : Text → Option ℕ
flag_value w =
    if w == codes "FIN"
    then some 0x01
    else if w == codes "SYN"
    then some 0x02
    else if w == codes "RST"
    then some 0x04
    else if w == codes "PSH"
    then some 0x08
    else if w == codes "ACK"
    then some 0x10
    else if w == codes "URG"
    then some 0x20
    else if w == codes "ECE"
    then some 0x40
    else if w == codes "CWR"
    then some 0x80
    else none

-- a flag may follow those below it
abbrev pub above : ℕ → Option ℕ → Option ℕ
above least none = none
above least (some v) = if ltb least v then some v else none

abbrev pub add_flag : Option ℕ → Option ℕ → Option ℕ
add_flag (some v) (some rest) = some (v + rest)
add_flag (some v) none = none
add_flag none rest = none

abbrev pub or_zero : Option ℕ → ℕ
or_zero none = 0
or_zero (some v) = v

-- Names of flags, each above the one before, with a bar between any two of them.
abbrev pub read_words : ℕ → List Text → Option ℕ
read_words least [] = none
read_words least (w ∷ []) = above least (flag_value w)
read_words least (w ∷ bar ∷ ws) =
    let rest = read_words (or_zero (flag_value w)) ws in
    if bar == codes "|" then add_flag (above least (flag_value w)) rest else none

-- Reads a print of flags strictly, as a client could: nothing at all, or such names.
pub read_flags : Text → Option ℕ
read_flags [] = some 0
read_flags (c ∷ s) = read_words 0 (split (c ∷ s) b' ')

abbrev is_some : Option ℕ → ℕ → Bool
is_some none n = false
is_some (some v) n = nat_beq v n

is_some_sound : (o : Option ℕ) (n : ℕ) → is_some o n ≡ true → o ≡ some n
is_some_sound none n h = absurd (cc h)
is_some_sound (some v) n h = ap some ((nat_beq_iff v n).0 h)

-- A test that a table of the first numbers passes.
holds_before : (ℕ → Bool) → ℕ → Bool
holds_before test zero = true
holds_before test (suc k) = if test k then holds_before test k else false

holds_before_sound :
    (test : ℕ → Bool) (k : ℕ) → holds_before test k ≡ true → (v : ℕ) → v < k → test v ≡ true
unfolding holds_before
holds_before_sound test zero t v below = absurd (omega arith)
holds_before_sound test (suc k) t v below = elim (Bool-cases (nat_beq v k)) [
  | inl same ↦ ground arith
  | inr other ↦ holds_before_sound test k (ground arith) v (ground arith)
]

flags_table : holds_before (λ f. is_some (read_flags (flags_to_string f)) f) 256 ≡ true
unfolding holds_before read_flags flags_to_string split text_beq
flags_table = refl

-- Every byte of flags can be read back from its print by a strict reader, who takes names of flags only, with
-- " | " between any two and each above the one before: every flag that is set is named, once, in the order of
-- the bits, and no other word is there.
pub read_flags-flags_to_string : (f : ℕ) → f < 256 → read_flags (flags_to_string f) ≡ some f
read_flags-flags_to_string f h = is_some_sound _ f (holds_before_sound _ 256 flags_table f h)

-- The number of a state's name.
abbrev state_code : Text → ℕ
state_code s =
    if s == codes "ESTABLISHED"
    then 1
    else if s == codes "SYNSENT"
    then 2
    else if s == codes "SYNRECV"
    then 3
    else if s == codes "FINWAIT1"
    then 4
    else if s == codes "FINWAIT2"
    then 5
    else if s == codes "TIMEWAIT"
    then 6
    else if s == codes "CLOSE"
    then 7
    else if s == codes "CLOSEWAIT"
    then 8
    else if s == codes "LASTACK"
    then 9
    else if s == codes "LISTEN"
    then 10
    else if s == codes "CLOSING"
    then 11
    else if s == codes "NEWSYNRECV"
    then 12
    else 0

abbrev named_well : ℕ → Option Text → Bool
named_well n none = nat_beq n 0
named_well n (some s) = nat_beq (state_code s) n && not (nat_beq n 0)

states_table : holds_before (λ n. named_well n (states n)) 13 ≡ true
unfolding holds_before states text_beq
states_table = refl

states_above : (n : ℕ) → 12 < n → states n ≡ none
unfolding states
states_above n h = ground arith

states_code : (n : ℕ) (s : Text) → n < 13 → states n ≡ some s → (state_code s ≡ n) × (n ≢ 0)
states_code n s h e =
    let t : named_well n (states n) ≡ true = holds_before_sound _ 13 states_table n h in
    let u : named_well n (some s) ≡ true = subst (λ o. named_well n o ≡ true) e t in
    (ground arith, ground arith)

states_below : (n : ℕ) (s : Text) → states n ≡ some s → n < 13
states_below n s e = elim (Bool-cases (ltb n 13)) [
  | inl t ↦ ground arith
  | inr f ↦ absurd (cc (states_above n (ground arith), e))
]

states-none : (n : ℕ) → states n ≡ none → (n ≡ 0) ⊎ (12 < n)
states-none n e = elim (Bool-cases (ltb n 13)) [
  | inl t ↦
      let u : named_well n (states n) ≡ true =
        holds_before_sound _ 13 states_table n (ground arith) in
      let v : named_well n none ≡ true = subst (λ o. named_well n o ≡ true) e u in
      inl (ground arith)
  | inr f ↦ inr (ground arith)
]

states_zero : states 0 ≡ none
unfolding states
states_zero = refl

-- A number has no name exactly when it is 0 or above 12, and two numbers with the same name are one.
pub states_distinct :
    (m n : ℕ)
    → ((states m ≡ none) ↔ ((m ≡ 0) ⊎ (12 < m)))
      × ((s : Text) → states m ≡ some s → states n ≡ some s → m ≡ n)
states_distinct m n = (
  (states-none m, λ h. elim h [ inl z ↦ ap states z ∙ states_zero | inr b ↦ states_above m b ]),
  λ s p q.
      sym (states_code m s (states_below m s p) p).0 ∙ (states_code n s (states_below n s q) q).0,
)

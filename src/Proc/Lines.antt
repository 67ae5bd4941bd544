-- ===== src/Proc/Lines.antt =====
-- What `deleteEmpty` of proc/proc.go leaves.
use bpfd.Prelude.{
  ◌≡◌, refl, inl, inr, false, List, [], ◌∷◌, ◌++◌, arith, Bool-cases, nat_eq, is_empty, All, Text,
  text_eq,
}
use bpfd.Strings.{trim_space}
use bpfd.Strings.Trim.{trim_space_idem}
use bpfd.Proc.{delete_empty}

-- A line that `deleteEmpty` keeps as it is.
abbrev pub IsLine : Text → Type 0
IsLine s = (is_empty s ≡ false) × (trim_space s ≡ s)

pub delete_empty-All : (ss : List Text) → All IsLine (delete_empty ss)
unfolding delete_empty
delete_empty-All [] = tt
delete_empty-All (s ∷ ss) = elim (Bool-cases (is_empty (trim_space s))) [
  | inl e ↦ rw e (delete_empty-All ss)
  | inr e ↦ rw e ((e, trim_space_idem s), delete_empty-All ss)
]

pub delete_empty_fix : (ss : List Text) → All IsLine ss → delete_empty ss ≡ ss
unfolding delete_empty
delete_empty_fix [] h = refl
delete_empty_fix (s ∷ ss) ((ne, fixed), h) = rw (fixed, ne, delete_empty_fix ss h)

pub delete_empty-append :
    (ss ts : List Text) → delete_empty (ss ++ ts) ≡ delete_empty ss ++ delete_empty ts
unfolding delete_empty
delete_empty-append [] ts = refl
delete_empty-append (s ∷ ss) ts = ground (arith, delete_empty-append ss ts)

-- ===== src/Proc/UserNamespace/Laws.antt =====
-- What `readUserMappings` makes of a list of mappings, and when it panics.
use bpfd.Prelude.{
  ◌≤◌, ◌≡◌, refl, ap, ◌∙◌, ◌≢◌, inl, inr, Bool, true, false, none, some, List, [], ◌∷◌, ◌++◌,
  append_assoc, append-nil, arith, ltb, if◌then◌else◌, Bool-cases, nat_eq, length, is_empty,
  length-append, All, any, ok, ℤ, Text, codes, text_eq,
}
use bpfd.Strings.{split, join, trim_space, blank, format_int}
use bpfd.Strings.Trim.{trim_space_fix}
use bpfd.Strings.Split.{Lacks, split-join}
use bpfd.Strings.Decimal.{format_int-ne-nil, format_int-NoBlanks, NoBlanks-Lacks}
use bpfd.Strconv.Laws.{IsInt64, parse_int-format_int}
use bpfd.Proc.{Host, delete_empty, pid_file, read_file_string}
use bpfd.Proc.Lines.{IsLine, delete_empty_fix}
use bpfd.Proc.UserNamespace.{
  UserMapping, parse_mapping, is_initial, read_mappings, read_user_mappings,
  get_user_namespace_info,
}

abbrev pub fields : List UserMapping → List Text
fields [] = []
fields (m ∷ ms) = format_int m.container_id ∷ format_int m.host_id ∷ format_int m.range ∷ fields ms

-- The numbers of the mappings, with a blank between two.
abbrev pub render : List UserMapping → Text
render ms = join (fields ms) (blank ∷ [])

pub record InRange (m : UserMapping) : Type 0 where
  pub container_id : IsInt64 m.container_id
  pub host_id : IsInt64 m.host_id
  pub range : IsInt64 m.range

-- The mappings are returned, but for the initial namespace, which has none to tell.
abbrev pub visible : List UserMapping → Bool × List UserMapping
visible ms = if any is_initial ms then (false, []) else (true, ms)

parse_mapping-format :
    (m : UserMapping)
    → InRange m
    → parse_mapping (format_int m.container_id) (format_int m.host_id) (format_int m.range) ≡ ok m
unfolding parse_mapping
parse_mapping-format m h = rw (
  parse_int-format_int m.container_id h.container_id,
  parse_int-format_int m.host_id h.host_id,
  parse_int-format_int m.range h.range,
)

read_mappings-fields :
    (ms acc : List UserMapping)
    → All InRange ms
    → read_mappings (fields ms) acc
      ≡ some (if any is_initial ms then (false, []) else (true, acc ++ ms))
unfolding read_mappings
read_mappings-fields [] acc h = rw append-nil
read_mappings-fields (m ∷ ms) acc (hm, h) = elim (Bool-cases (is_initial m)) [
  | inl e ↦ ground (arith, parse_mapping-format m hm)
  | inr e ↦ ground (
    arith,
    parse_mapping-format m hm,
    read_mappings-fields ms (acc ++ m ∷ []) h,
    append_assoc acc (m ∷ []) ms,
  )
]

format_int-IsLine : (z : ℤ) → IsLine (format_int z)
format_int-IsLine z =
    (nonempty (format_int z) (format_int-ne-nil z), trim_space_fix _ (format_int-NoBlanks z))
  where
    nonempty : (s : Text) → s ≢ [] → is_empty s ≡ false
    nonempty [] h = absurd (h refl)
    nonempty (c ∷ s) h = refl

fields-IsLine : (ms : List UserMapping) → All IsLine (fields ms)
fields-IsLine [] = tt
fields-IsLine (m ∷ ms) = (
  format_int-IsLine m.container_id,
  (format_int-IsLine m.host_id, (format_int-IsLine m.range, fields-IsLine ms)),
)

format_int-Lacks : (z : ℤ) → Lacks blank (format_int z)
format_int-Lacks z = NoBlanks-Lacks _ (format_int-NoBlanks z)

fields-Lacks : (ms : List UserMapping) → All (Lacks blank) (fields ms)
fields-Lacks [] = tt
fields-Lacks (m ∷ ms) = (
  format_int-Lacks m.container_id,
  (format_int-Lacks m.host_id, (format_int-Lacks m.range, fields-Lacks ms)),
)

parts-render :
    (ms : List UserMapping) → ms ≢ [] → delete_empty (split (render ms) blank) ≡ fields ms
parts-render [] ne = absurd (ne refl)
parts-render (m ∷ ms) ne =
    ap delete_empty (split-join (fields (m ∷ ms)) blank (λ q. cc) (fields-Lacks (m ∷ ms)))
    ∙ delete_empty_fix (fields (m ∷ ms)) (fields-IsLine (m ∷ ms))

three : (ms : List UserMapping) → ms ≢ [] → ltb (length (fields ms)) 3 ≡ false
three [] h = absurd (h refl)
three (m ∷ ms) h = ground arith

-- Mappings written with blanks between their numbers are read back, all of them and in order, as those
-- of a user namespace; but if one is the identity on all 32-bit ids, the process is reported to be in
-- no user namespace.
pub read_user_mappings-render :
    (ms : List UserMapping)
    → ms ≢ []
    → All InRange ms
    → read_user_mappings (render ms) ≡ some (visible ms)
unfolding read_user_mappings
read_user_mappings-render ms ne h =
    ground (arith, parts-render ms ne, three ms ne, read_mappings-fields ms [] h)

read_mappings_short :
    (ms acc : List UserMapping) (extra : List Text)
    → All InRange ms
    → any is_initial ms ≡ false
    → (1 ≤ length extra) × (length extra ≤ 2)
    → read_mappings (fields ms ++ extra) acc ≡ none
unfolding read_mappings
read_mappings_short [] acc [] h n (lo, hi) = absurd (omega arith)
read_mappings_short [] acc (x ∷ []) h n b = refl
read_mappings_short [] acc (x ∷ y ∷ []) h n b = refl
read_mappings_short [] acc (x ∷ y ∷ z ∷ extra) h n (lo, hi) = absurd (omega arith)
read_mappings_short (m ∷ ms) acc extra (hm, h) n b =
    ground (arith, parse_mapping-format m hm, read_mappings_short ms (acc ++ m ∷ []) extra h)

-- A file whose parts are some mappings, none that of the initial namespace, and then one or two parts
-- more makes `readUserMappings` read past the end of the slice: it panics.
pub read_user_mappings_panics :
    (f : Text) (ms : List UserMapping) (extra : List Text)
    → delete_empty (split f blank) ≡ fields ms ++ extra
    → ms ≢ []
    → All InRange ms
    → any is_initial ms ≡ false
    → (1 ≤ length extra) × (length extra ≤ 2)
    → read_user_mappings f ≡ none
unfolding read_user_mappings
read_user_mappings_panics f ms extra e ne h n b = ground (
  arith,
  ap (λ t. length t) e,
  length-append {0} (fields ms) extra,
  three ms ne,
  read_mappings_short ms [] extra h n b,
)

read_empty : read_user_mappings [] ≡ some (false, [])
unfolding read_user_mappings trim_space
read_empty = refl

-- Where uid_map is empty or missing, the process is reported to be in no user namespace: the test for
-- an uninitialised namespace compares a length with 0 by `<` and never succeeds.
pub get_user_namespace_info_empty :
    (h : Host) (pid : ℤ)
    → read_file_string h (pid_file pid (codes "uid_map")) ≡ []
    → get_user_namespace_info h pid ≡ some (false, [])
unfolding get_user_namespace_info
get_user_namespace_info_empty h pid e =
    ap (λ (f : Text). if ltb (length f) 0 then some (true, []) else read_user_mappings f) e
    ∙ read_empty

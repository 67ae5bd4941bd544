-- ===== src/Proc/Status/Ids.antt =====
-- `GetUIDGID` on a status file as the kernel writes it.
use bpfd.Prelude.{
  ℕ, ◌^◌, ◌<◌, ◌≡◌, refl, ap, ◌∙◌, ◌≢◌, ◌⊎◌, inl, inr, false, List, [], ◌∷◌, ◌++◌, append-nil,
  arith, nat_eq, is_empty, All, ok, Text, codes, text_eq,
}
use bpfd.Strings.{
  is_space, trim_left, trim_right, trim_space, split, contains, format_nat, newline, tab, blank,
  first_part,
}
use bpfd.Strings.Trim.{NoBlanks, trim_right-append}
use bpfd.Strings.Split.{Lacks, first_part-split, first_part_at}
use bpfd.Strings.Decimal.{
  AllDigits, format_nat-AllDigits, format_nat-ne-nil, AllDigits-Lacks, AllDigits-NoBlanks,
}
use bpfd.Strconv.{to_uint32}
use bpfd.Strconv.Laws.{parse_int-format_nat}
use bpfd.Proc.Status.{
  until_newline, status_lines, go_on, stop, line_effect, find_ids, first_field, parse_ids,
  uid_gid_in,
}

-- A line that holds neither key of `getUIDGID`.
pub record IsOther (line : Text) : Type 0 where
  pub no_uid : contains line (codes "Uid:") ≡ false
  pub no_gid : contains line (codes "Gid:") ≡ false

-- An entry of the kernel: the key, a tab, the number, a tab and the rest.
abbrev pub entry : Text → ℕ → Text → Text
entry key n rest = key ++ b':' ∷ tab ∷ format_nat n ++ tab ∷ rest

abbrev value : ℕ → Text → Text
value n rest = tab ∷ format_nat n ++ tab ∷ until_newline rest

until_newline-append :
    (p r : Text) → Lacks newline p → until_newline (p ++ r) ≡ p ++ until_newline r
unfolding until_newline
until_newline-append [] r h = refl
until_newline-append (c ∷ p) r (hc, h) = ground (arith, until_newline-append p r h)

until_newline-value :
    (n : ℕ) (rest : Text) → until_newline (tab ∷ format_nat n ++ tab ∷ rest) ≡ value n rest
unfolding until_newline
until_newline-value n rest =
    ap (λ t. tab ∷ t)
      (until_newline-append (format_nat n) (tab ∷ rest)
        (AllDigits-Lacks newline (format_nat n) (omega arith) (format_nat-AllDigits n)))

trim_right-tab :
    (r : Text) → (trim_right (tab ∷ r) ≡ []) ⊎ (trim_right (tab ∷ r) ≡ tab ∷ trim_right r)
unfolding trim_right is_space
trim_right-tab r = ground arith

trim_left_digits : (s : Text) → NoBlanks s → s ≢ [] → (r : Text) → trim_left (tab ∷ s ++ r) ≡ s ++ r
unfolding trim_left is_space
trim_left_digits [] h ne r = absurd (ne refl)
trim_left_digits (c ∷ s) (hc, h) ne r = rw hc

trimmed : (s r : Text) → NoBlanks s → s ≢ [] → trim_space (tab ∷ s ++ r) ≡ s ++ trim_right r
unfolding trim_space
trimmed s r h ne = ap trim_right (trim_left_digits s h ne r) ∙ trim_right-append s r h

cut :
    (s q : Text)
    → AllDigits s
    → (q ≡ []) ⊎ ((r : Text) × (q ≡ tab ∷ r))
    → first_part (split (first_part (split (s ++ q) blank)) tab) ≡ s
unfolding split
cut s q d (inl e) =
    ap (λ (t : Text). first_part (split (first_part (split (s ++ t) blank)) tab)) e
    ∙ ap (λ (t : Text). first_part (split t tab))
        (first_part-split s [] blank (AllDigits-Lacks blank s (omega arith) d))
    ∙ first_part-split s [] tab (AllDigits-Lacks tab s (omega arith) d)
    ∙ append-nil s
cut s q d (inr (r, e)) =
    ap (λ (t : Text). first_part (split (first_part (split (s ++ t) blank)) tab)) e
    ∙ ap (λ (t : Text). first_part (split t tab))
        (first_part-split s (tab ∷ r) blank (AllDigits-Lacks blank s (omega arith) d))
    ∙ ap (λ (t : Text). first_part (split (s ++ t) tab))
        (first_part-split (tab ∷ []) r blank ((λ q. absurd (omega (arith, q))), tt))
    ∙ first_part-split s (tab ∷ first_part (split r blank)) tab
        (AllDigits-Lacks tab s (omega arith) d)
    ∙ ap (λ t. s ++ t) (first_part_at (first_part (split r blank)) tab)
    ∙ append-nil s

first_field_value : (n : ℕ) (r : Text) → first_field (tab ∷ format_nat n ++ tab ∷ r) ≡ format_nat n
unfolding first_field
first_field_value n r =
    let s = format_nat n in
    let d = format_nat-AllDigits n in
    ap (λ (t : Text). first_part (split (first_part (split t blank)) tab))
      (trimmed s (tab ∷ r) (AllDigits-NoBlanks s d) (format_nat-ne-nil n))
    ∙ cut s (trim_right (tab ∷ r)) d
        (elim (trim_right-tab r) [ inl e ↦ inl e | inr e ↦ inr (trim_right r, e) ])

uid_line :
    (n : ℕ) (x uid gid : Text)
    → line_effect (entry (codes "Uid") n x) uid gid ≡ go_on (value n x) gid
unfolding line_effect
uid_line n x uid gid = ap (λ t. go_on t gid) (until_newline-value n x)

gid_line :
    (n : ℕ) (x uid gid : Text)
    → contains (entry (codes "Gid") n x) (codes "Uid:") ≡ false
    → line_effect (entry (codes "Gid") n x) uid gid ≡ go_on uid (value n x)
unfolding line_effect
gid_line n x uid gid h = ground (arith, until_newline-value n x)

other_line : (line : Text) → IsOther line → line_effect line [] [] ≡ go_on [] []
unfolding line_effect
other_line line h = ground arith

skip_others :
    (pre rest : List Text) → All IsOther pre → find_ids (pre ++ rest) [] [] ≡ find_ids rest [] []
unfolding find_ids
skip_others [] rest h = refl
skip_others (l ∷ pre) rest (hl, h) = ground (arith, other_line l hl, skip_others pre rest h)

last_line :
    (line uid gid : Text)
    → IsOther line
    → is_empty uid ≡ false
    → is_empty gid ≡ false
    → line_effect line uid gid ≡ stop
unfolding line_effect
last_line line uid gid h u g = ground arith

leave_others :
    (post : List Text) (uid gid : Text)
    → All IsOther post
    → is_empty uid ≡ false
    → is_empty gid ≡ false
    → find_ids post uid gid ≡ (uid, gid)
unfolding find_ids
leave_others [] uid gid h u g = refl
leave_others (l ∷ post) uid gid (hl, h) u g = rw (last_line l uid gid hl u g, find_ids)

find_ids_step :
    (line : Text) (lines : List Text) (uid gid : Text) {uid' gid' : Text}
    → line_effect line uid gid ≡ go_on uid' gid'
    → find_ids (line ∷ lines) uid gid ≡ find_ids lines uid' gid'
unfolding find_ids
find_ids_step line lines uid gid e = rw (e, find_ids)

find_ids_lem :
    (pre post : List Text) (u g : ℕ) (x y : Text)
    → All IsOther pre
    → All IsOther post
    → contains (entry (codes "Gid") g y) (codes "Uid:") ≡ false
    → find_ids (pre ++ entry (codes "Uid") u x ∷ entry (codes "Gid") g y ∷ post) [] []
      ≡ (value u x, value g y)
find_ids_lem pre post u g x y hp hq hy =
    let uid_entry = entry (codes "Uid") u x in
    let gid_entry = entry (codes "Gid") g y in
    skip_others pre (uid_entry ∷ gid_entry ∷ post) hp
    ∙ find_ids_step uid_entry (gid_entry ∷ post) [] [] (uid_line u x [] [])
    ∙ find_ids_step gid_entry post (value u x) [] (gid_line g y (value u x) [] hy)
    ∙ leave_others post (value u x) (value g y) hq refl refl

parse_ids_lem :
    (u g : ℕ) (x y : Text) → u < 2 ^ 32 → g < 2 ^ 32 → parse_ids (value u x) (value g y) ≡ ok (u, g)
unfolding parse_ids to_uint32
parse_ids_lem u g x y hu hg = ground (
  arith,
  first_field_value u (until_newline x),
  first_field_value g (until_newline y),
  parse_int-format_nat u (omega arith),
  parse_int-format_nat g (omega arith),
)

-- `GetUIDGID` reads the real user and group from a status file as the kernel writes it: a line with
-- "Uid:", the number and a tab, the line with "Gid:" behind it, and around them lines that hold
-- neither key. All 32-bit ids are read back exactly.
pub uid_gid_in_lem :
    (input : Text) (pre post : List Text) (u g : ℕ) (x y : Text)
    → status_lines input ≡ pre ++ entry (codes "Uid") u x ∷ entry (codes "Gid") g y ∷ post
    → All IsOther pre
    → All IsOther post
    → contains (entry (codes "Gid") g y) (codes "Uid:") ≡ false
    → u < 2 ^ 32
    → g < 2 ^ 32
    → uid_gid_in input ≡ ok (u, g)
unfolding uid_gid_in
uid_gid_in_lem input pre post u g x y e hp hq hy hu hg =
    ap (λ (t : List Text). let r = find_ids t [] [] in parse_ids r.0 r.1) e
    ∙ ap (λ (r : Text × Text). parse_ids r.0 r.1) (find_ids_lem pre post u g x y hp hq hy)
    ∙ parse_ids_lem u g x y hu hg

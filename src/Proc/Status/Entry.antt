-- ===== src/Proc/Status/Entry.antt =====
-- `getStatusEntry` and the two modes that it reads, on a status file as the kernel writes it.
use bpfd.Prelude.{
  ◌≡◌, ap, ◌∙◌, true, false, some, List, [], ◌∷◌, ◌++◌, append_assoc, arith, nat_eq, All, Text,
  codes, text_eq,
}
use bpfd.Strings.{trim_space, contains}
use bpfd.Strings.Split.{Lacks}
use bpfd.Strings.Search.{contains_append}
use bpfd.Proc.{Host}
use bpfd.Proc.Status.{
  until_newline, after_colon, status_lines, find_entry, get_status_entry, SeccompMode, seccomp_mode,
  seccomp_mode_in,
}

abbrev pub Without : Text → Text → Type 0
Without find line = contains line find ≡ false

contains-prefix : (key v : Text) → contains (key ++ v) key ≡ true
contains-prefix key v = contains_append [] key v

after_colon-key :
    (key v : Text) → Lacks b':' key → after_colon (key ++ b':' ∷ v) ≡ some (until_newline v)
unfolding after_colon
after_colon-key [] v h = ground arith
after_colon-key (c ∷ key) v (hc, h) = ground (arith, after_colon-key key v h)

find_entry_lem :
    (pre post : List Text) (key v : Text)
    → Lacks b':' key
    → All (Without (key ++ b':' ∷ [])) pre
    → find_entry (pre ++ (key ++ b':' ∷ v) ∷ post) (key ++ b':' ∷ []) ≡ trim_space (until_newline v)
unfolding find_entry
find_entry_lem [] post key v h _ = ground (
  arith,
  contains-prefix (key ++ b':' ∷ []) v,
  append_assoc key (b':' ∷ []) v,
  after_colon-key key v h,
)
find_entry_lem (l ∷ pre) post key v h (hl, hp) = ground (arith, find_entry_lem pre post key v h hp)

-- `getStatusEntry` returns the trimmed value behind the colon of the first line that holds the key.
pub get_status_entry_lem :
    (input : Text) (pre post : List Text) (key v : Text)
    → status_lines input ≡ pre ++ (key ++ b':' ∷ v) ∷ post
    → Lacks b':' key
    → All (Without (key ++ b':' ∷ [])) pre
    → get_status_entry input (key ++ b':' ∷ []) ≡ trim_space (until_newline v)
unfolding get_status_entry
get_status_entry_lem input pre post key v e h hp =
    ap (λ t. find_entry t (key ++ b':' ∷ [])) e ∙ find_entry_lem pre post key v h hp

-- Where the first line with "Seccomp:" has 0, 1 or 2, the mode is disabled, strict or filtering, and the
-- kernel is not asked.
pub seccomp_mode_in_lem :
    (h : Host) (input : Text) (pre post : List Text) (v : Text) (sm : SeccompMode)
    → status_lines input ≡ pre ++ (codes "Seccomp" ++ b':' ∷ v) ∷ post
    → All (Without (codes "Seccomp:")) pre
    → seccomp_mode (trim_space (until_newline v)) ≡ some sm
    → seccomp_mode_in h input ≡ sm
unfolding seccomp_mode_in
seccomp_mode_in_lem h input pre post v sm e hp m =
    let entry : get_status_entry input (codes "Seccomp:") ≡ trim_space (until_newline v) =
      get_status_entry_lem input pre post (codes "Seccomp") v e (omega arith) hp in
    ground (arith, entry, m)

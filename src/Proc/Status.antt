-- ===== src/Proc/Status.antt =====
-- proc/proc.go: what is read from /proc/<pid>/status: `GetUIDGID`, `GetSeccompEnforcingMode`,
-- `GetNoNewPrivileges` and `getStatusEntry`.
pub mod Entry
pub mod Ids
use bpfd.Prelude.{
  ℕ, Bool, not, ◌&&◌, Option, none, some, List, [], ◌∷◌, nat_beq, if◌then◌else◌, Eq, ◌==◌, nat_eq,
  is_empty, Result, ok, ◌>>=◌, ℤ, Text, codes, text_eq,
}
use bpfd.Strings.{first_part, trim_space, split, contains, newline, tab, blank}
use bpfd.Strconv.{NumError, parse_int, to_uint32}
use bpfd.Proc.{Host, delete_empty, pid_file, task_file, read_file_string}

unfoldable pub until_newline : Text → Text
until_newline [] = []
until_newline (c ∷ s) = if nat_beq c newline then [] else c ∷ until_newline s

-- the first group of `:(.*)` where it matches leftmost
unfoldable pub after_colon : Text → Option Text
unfolding until_newline
after_colon [] = none
after_colon (c ∷ s) = if nat_beq c b':' then some (until_newline s) else after_colon s

-- the lines that `deleteEmpty` leaves
unfoldable pub status_lines : Text → List Text
unfolding split delete_empty
status_lines input = delete_empty (split input newline)

-- the loop of `getStatusEntry`
unfoldable pub find_entry : List Text → Text → Text
unfolding after_colon contains
find_entry [] find = []
find_entry (line ∷ lines) find =
    let next = find_entry lines find in
    if contains line find
    then elim (after_colon line) [ none ↦ next | some v ↦ trim_space v ]
    else next

-- `getStatusEntry`
unfoldable pub get_status_entry : Text → Text → Text
unfolding find_entry status_lines trim_space
get_status_entry input find = find_entry (status_lines input) find

-- What the body of the loop of `getUIDGID` does with a line: it goes on with the two values, or it
-- leaves the loop.
pub data LineEffect : Type 0 where
  go_on : Text → Text → LineEffect
  stop : LineEffect

abbrev check_break : Text → Text → LineEffect
check_break uid gid = if not (is_empty uid) && not (is_empty gid) then stop else go_on uid gid

abbrev check_gid : Text → Text → Text → LineEffect
check_gid line uid gid =
    if contains line (codes "Gid:")
    then elim (after_colon line) [ none ↦ check_break uid gid | some v ↦ go_on uid v ]
    else check_break uid gid

unfoldable pub line_effect : Text → Text → Text → LineEffect
unfolding contains after_colon
line_effect line uid gid =
    if contains line (codes "Uid:")
    then elim (after_colon line) [ none ↦ check_gid line uid gid | some v ↦ go_on v gid ]
    else check_gid line uid gid

unfoldable pub find_ids : List Text → Text → Text → Text × Text
find_ids [] uid gid = (uid, gid)
find_ids (line ∷ lines) uid gid = elim (line_effect line uid gid) [
  | stop ↦ (uid, gid)
  | go_on uid' gid' ↦ find_ids lines uid' gid'
]

-- `strings.Split(strings.Split(strings.TrimSpace(s), " ")[0], "\t")[0]`
unfoldable pub first_field : Text → Text
unfolding split trim_space
first_field s = first_part (split (first_part (split (trim_space s) blank)) tab)

-- `getUIDGID` behind its loop
unfoldable pub parse_ids : Text → Text → Result NumError (ℕ × ℕ)
parse_ids uid gid = if is_empty uid && is_empty gid then ok (0, 0) else do
  u ← parse_int (first_field uid)
  g ← parse_int (first_field gid)
  ok (to_uint32 u, to_uint32 g)

-- `getUIDGID`
unfoldable pub uid_gid_in : Text → Result NumError (ℕ × ℕ)
uid_gid_in input = let (uid, gid) = find_ids (status_lines input) [] [] in parse_ids uid gid

-- `GetUIDGID`
unfoldable pub get_uid_gid : Host → ℤ → ℤ → Result NumError (ℕ × ℕ)
unfolding read_file_string task_file
get_uid_gid h tgid pid = uid_gid_in (read_file_string h (task_file tgid pid (codes "status")))

pub data SeccompMode : Type 0 where
  disabled strict filtering : SeccompMode

-- the map `seccompModes`
unfoldable pub seccomp_mode : Text → Option SeccompMode
seccomp_mode mode =
    if mode == codes "0"
    then some disabled
    else if mode == codes "1"
    then some strict
    else if mode == codes "2"
    then some filtering
    else none

-- `getSeccompEnforcingMode`; the process that asks the kernel is the caller itself
unfoldable pub seccomp_mode_in : Host → Text → SeccompMode
seccomp_mode_in h input = elim (seccomp_mode (get_status_entry input (codes "Seccomp:"))) [
  | some sm ↦ sm
  | none ↦ if not h.get_seccomp_invalid && not h.set_seccomp_invalid then strict else disabled
]

-- `GetSeccompEnforcingMode`
unfoldable pub get_seccomp_enforcing_mode : Host → ℤ → SeccompMode
unfolding read_file_string pid_file
get_seccomp_enforcing_mode h pid =
    seccomp_mode_in h (read_file_string h (pid_file pid (codes "status")))

-- `getNoNewPrivileges`
unfoldable pub no_new_privileges_in : Text → Bool
unfolding get_status_entry
no_new_privileges_in input = get_status_entry input (codes "NoNewPrivs:") == codes "1"

-- `GetNoNewPrivileges`
unfoldable pub get_no_new_privileges : Host → ℤ → Bool
unfolding read_file_string pid_file
get_no_new_privileges h pid =
    no_new_privileges_in (read_file_string h (pid_file pid (codes "status")))

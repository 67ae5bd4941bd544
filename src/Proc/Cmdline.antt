-- ===== src/Proc/Cmdline.antt =====
-- proc/proc.go: `parseProcFile`, which splits /proc/<pid>/cmdline and /proc/<pid>/environ at their
-- NUL bytes, `GetCmdline` and `GetEnviron`.
use bpfd.Prelude.{
  ◌≡◌, refl, ◌≢◌, false, none, some, List, [], ◌∷◌, ◌++◌, arith, nat_beq, if◌then◌else◌, nat_eq,
  is_empty, get_last?, init, get_last?-append, init-append, All, ℤ, Text, codes, text_eq,
}
use bpfd.Strings.{split, join}
use bpfd.Strings.Split.{Lacks, split-join}
use bpfd.Proc.{Host, pid_file, read_file}

-- `if data[len(data)-1] == 0 { data = data[:len(data)-1] }`
unfoldable pub drop_last_nul : Text → Text
drop_last_nul bytes = elim (get_last? bytes) [
  | none ↦ bytes
  | some c ↦ if nat_beq c 0 then init bytes else bytes
]

-- `parseProcFile`
unfoldable pub parse_proc_file : Text → List Text
unfolding drop_last_nul split
parse_proc_file bytes = if is_empty bytes then [] else split (drop_last_nul bytes) 0

-- `GetCmdline`
unfoldable pub get_cmdline : Host → ℤ → List Text
unfolding parse_proc_file read_file pid_file
get_cmdline h pid = parse_proc_file (read_file h (pid_file pid (codes "cmdline")))

-- `GetEnviron`
unfoldable pub get_environ : Host → ℤ → List Text
unfolding parse_proc_file read_file pid_file
get_environ h pid = parse_proc_file (read_file h (pid_file pid (codes "environ")))

nonempty : (s : Text) → is_empty (s ++ 0 ∷ []) ≡ false
nonempty [] = refl
nonempty (c ∷ s) = refl

-- What the kernel writes for a list of arguments: each with a NUL behind it.
abbrev pub render : List Text → Text
render args = join args (0 ∷ []) ++ 0 ∷ []

-- `parseProcFile` gives back the arguments that the kernel wrote, empty ones included, if there is
-- one at all and none holds a NUL.
pub parse_proc_file-render :
    (args : List Text) → args ≢ [] → All (Lacks 0) args → parse_proc_file (render args) ≡ args
unfolding parse_proc_file
parse_proc_file-render args ne h = ground (
  arith,
  get_last?-append (join args (0 ∷ [])) 0,
  init-append (join args (0 ∷ [])) 0,
  split-join args 0 ne h,
  nonempty (join args (0 ∷ [])),
)

-- ===== src/Proc.antt =====
-- proc/proc.go: file access and the helpers that the other functions of the package share. The
-- operating system is a parameter, `Host`. The functions that read one file and interpret it are in
-- the modules below this one.
pub mod Lines
pub mod Runtime
pub mod ContainerId
pub mod UserNamespace
pub mod Status
pub mod Cmdline
pub mod Capabilities
pub mod Foreign
use bpfd.Prelude.{
  ℕ, Bool, not, ◌&&◌, Option, none, some, List, [], ◌∷◌, ◌++◌, ltb, if◌then◌else◌, Eq, nat_eq,
  is_empty, ℤ, is_positive, Text, codes, text_eq,
}
use bpfd.Strings.{trim_space, format_int}

-- What the package asks of the operating system.
pub record Host : Type 0 where
  -- `os.IsNotExist` of the error of `os.Stat`
  pub is_missing : Text → Bool
  -- the bytes that `ioutil.ReadFile` returns, and whether it fails
  pub read : Text → Text × Bool
  pub getenv : Text → Text
  -- `os.Readlink`, `none` on an error
  pub readlink : Text → Option Text
  -- the device number of `syscall.Lstat`, `none` on an error
  pub device : Text → Option ℕ
  -- whether `prctl(PR_GET_SECCOMP)` and `prctl(PR_SET_SECCOMP)` return EINVAL
  pub get_seccomp_invalid : Bool
  pub set_seccomp_invalid : Bool

unfoldable pub file_exists : Host → Text → Bool
file_exists h file = not (h.is_missing file)

unfoldable pub read_file : Host → Text → Text
unfolding file_exists
read_file h file = if file_exists h file then (h.read file).0 else []

unfoldable pub read_file_string : Host → Text → Text
unfolding read_file
read_file_string h file = trim_space (read_file h file)

-- `/proc/<pid>/<leaf>`, or the entry of "self" if the pid is less than one
unfoldable pub pid_file : ℤ → Text → Text
pid_file pid leaf =
    if is_positive pid
    then codes "/proc/" ++ format_int pid ++ codes "/" ++ leaf
    else codes "/proc/self/" ++ leaf

-- the entry of a task where the thread group is given too
unfoldable pub task_file : ℤ → ℤ → Text → Text
unfolding pid_file
task_file tgid pid leaf =
    if is_positive pid && is_positive tgid
    then codes "/proc/" ++ format_int tgid ++ codes "/task/" ++ format_int pid ++ codes "/" ++ leaf
    else pid_file pid leaf

unfoldable pub delete_empty : List Text → List Text
delete_empty [] = []
delete_empty (s ∷ ss) =
    let r = delete_empty ss in if is_empty (trim_space s) then r else trim_space s ∷ r

-- `GetAppArmorProfile`
unfoldable pub get_app_armor_profile : Host → ℤ → Text
unfolding pid_file read_file_string
get_app_armor_profile h pid =
    let f = read_file_string h (pid_file pid (codes "attr/current")) in
    if is_empty f then codes "unconfined" else f

-- `GetCwd`: an error, of any kind, gives the empty text
unfoldable pub get_cwd : Host → ℤ → Text
unfolding pid_file
get_cwd h pid = elim (h.readlink (pid_file pid (codes "cwd"))) [ none ↦ [] | some cwd ↦ cwd ]

-- `HasNamespace`: `none` is the error of `Lstat`
unfoldable pub has_namespace : Host → Text → Option Bool
has_namespace h ns = elim (h.device (codes "/proc/1/ns/" ++ ns)) [
  | none ↦ none
  | some dev ↦ some (ltb 4 dev)
]

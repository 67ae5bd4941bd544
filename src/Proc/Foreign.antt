-- ===== src/Proc/Foreign.antt =====
-- What proc/proc.go finds of a process where it looks among the tasks of another one.
use bpfd.Prelude.{ℕ, ◌≡◌, refl, true, [], nat_eq, ok, pos, Text, codes, text_eq}
use bpfd.Strings.{trim_space}
use bpfd.Proc.{Host, task_file, read_file_string}
use bpfd.Proc.Status.{get_uid_gid, uid_gid_in, parse_ids, find_ids, status_lines}
use bpfd.Proc.ContainerId.{get_container_id, id_in}

-- The files of the task are not those of another process: `/proc/<tgid>/task/<pid>` does not exist.
pub record IsForeign (h : Host) (tgid pid : ℕ) : Type 0 where
  pub missing : (leaf : Text) → h.is_missing (task_file (pos tgid) (pos pid) leaf) ≡ true

read_missing : (h : Host) (f : Text) → h.is_missing f ≡ true → read_file_string h f ≡ []
unfolding read_file_string trim_space
read_missing h f m = rw m refl

pub get_uid_gid-IsForeign :
    (h : Host) (tgid pid : ℕ)
    → IsForeign h tgid pid
    → get_uid_gid h (pos tgid) (pos pid) ≡ ok (0, 0)
unfolding get_uid_gid uid_gid_in parse_ids find_ids status_lines trim_space
get_uid_gid-IsForeign h tgid pid f = rw (read_missing h _ (f.missing (codes "status"))) refl

pub get_container_id-IsForeign :
    (h : Host) (tgid pid : ℕ) → IsForeign h tgid pid → get_container_id h (pos tgid) (pos pid) ≡ []
unfolding get_container_id id_in
get_container_id-IsForeign h tgid pid f = rw (read_missing h _ (f.missing (codes "cgroup"))) refl

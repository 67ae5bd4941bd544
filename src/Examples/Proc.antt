-- ===== src/Examples/Proc.antt =====
-- The theorems about proc/proc.go at concrete files.
use bpfd.Prelude.{
  ◌≡◌, refl, true, false, some, List, [], ◌∷◌, ◌++◌, arith, nat_beq, nat_eq, length, All, any,
  Result, ok, ℤ, pos, Text, codes, text_beq, text_eq,
}
use bpfd.Strings.{trim_space, blank, split, contains}
use bpfd.Strings.Split.{Lacks}
use bpfd.Proc.{Host, read_file_string, pid_file, delete_empty}
use bpfd.Proc.Runtime.{
  ContainerRuntime, lxc_libvirt, docker, container_runtimes, runtime_in, get_container_runtime,
}
use bpfd.Proc.ContainerId.{id_in}
use bpfd.Proc.ContainerId.Laws.{IsIdOrEmpty, id_in-IsId}
use bpfd.Proc.UserNamespace.{UserMapping, is_initial}
use bpfd.Proc.UserNamespace.Laws.{InRange, fields}
use bpfd.Proc.Status.{status_lines, until_newline, filtering, seccomp_mode, uid_gid_in}
use bpfd.Proc.Status.Entry.{Without}
use bpfd.Proc.Status.Ids.{IsOther, entry, uid_gid_in_lem}
use bpfd.Proc.Capabilities.{bounding, Capabilities, held}
use bpfd.Examples.Rules.{echo_host}

abbrev cgroup : Text
cgroup = codes "1:name=systemd:/docker/c0ffee"

cgroup_docker : runtime_in cgroup ≡ docker
unfolding runtime_in trim_space contains bpfd.Proc.Runtime.name
cgroup_docker = refl

id_in-IsId_example : IsIdOrEmpty (id_in cgroup)
id_in-IsId_example = id_in-IsId cgroup

abbrev mappings : List UserMapping
mappings =
    record { container_id = pos 0; host_id = pos 1000; range = pos 1 }
    ∷ record { container_id = pos 1; host_id = pos 100000; range = pos 65536 }
    ∷ []

mappings-InRange : All InRange mappings
mappings-InRange = (
  record { container_id = omega arith; host_id = omega arith; range = omega arith },
  (record { container_id = omega arith; host_id = omega arith; range = omega arith }, tt),
)

abbrev cut_off : Text
cut_off = codes "0 1000 1 1 100000 65536 65537"

cut_off-fields : delete_empty (split cut_off blank) ≡ fields mappings ++ codes "65537" ∷ []
unfolding delete_empty split trim_space bpfd.Strings.format_int
cut_off-fields = refl

mappings-not_initial : any is_initial mappings ≡ false
unfolding is_initial
mappings-not_initial = refl

abbrev empty_host : Host
empty_host = record echo_host { is_missing = λ f. true }

nothing_there : read_file_string empty_host (pid_file (pos 7) (codes "uid_map")) ≡ []
unfolding read_file_string trim_space
nothing_there = refl

abbrev status : Text
status = codes "Name:\tcat\nUid:\t1000\t1000\nGid:\t100\t100\nSeccomp:\t2\n"

status_split :
    status_lines status
    ≡ (codes "Name:\tcat" ∷ [])
      ++ entry (codes "Uid") 1000 (codes "1000")
        ∷ entry (codes "Gid") 100 (codes "100")
        ∷ codes "Seccomp:\t2"
        ∷ []
unfolding status_lines trim_space bpfd.Strings.format_nat
status_split = refl

name-IsOther : IsOther (codes "Name:\tcat")
unfolding contains
name-IsOther = record { no_uid = refl; no_gid = refl }

seccomp-IsOther : IsOther (codes "Seccomp:\t2")
unfolding contains
seccomp-IsOther = record { no_uid = refl; no_gid = refl }

gid_line : contains (entry (codes "Gid") 100 (codes "100")) (codes "Uid:") ≡ false
unfolding contains bpfd.Strings.format_nat
gid_line = refl

uid_gid_in_lem_example : uid_gid_in status ≡ ok (1000, 100)
uid_gid_in_lem_example =
    uid_gid_in_lem status (codes "Name:\tcat" ∷ []) (codes "Seccomp:\t2" ∷ []) 1000 100
      (codes "1000") (codes "100") status_split (name-IsOther, tt) (seccomp-IsOther, tt) gid_line
      (omega arith) (omega arith)

abbrev earlier : List Text
earlier = codes "Name:\tcat" ∷ codes "Uid:\t1000\t1000" ∷ codes "Gid:\t100\t100" ∷ []

earlier-Without : All (Without (codes "Seccomp:")) earlier
unfolding contains
earlier-Without = (refl, (refl, (refl, tt)))

seccomp_split : status_lines status ≡ earlier ++ (codes "Seccomp" ++ b':' ∷ codes "\t2") ∷ []
unfolding status_lines trim_space
seccomp_split = refl

two-filtering : seccomp_mode (trim_space (until_newline (codes "\t2"))) ≡ some filtering
unfolding seccomp_mode text_beq trim_space until_newline
two-filtering = refl

seccomp-Lacks : Lacks b':' (codes "Seccomp")
seccomp-Lacks = (
  λ e. absurd (omega (arith, e)),
  (
    λ e. absurd (omega (arith, e)),
    (
      λ e. absurd (omega (arith, e)),
      (
        λ e. absurd (omega (arith, e)),
        (
          λ e. absurd (omega (arith, e)),
          (λ e. absurd (omega (arith, e)), (λ e. absurd (omega (arith, e)), tt)),
        ),
      ),
    ),
  ),
)

abbrev arguments : List Text
arguments = codes "cat" ∷ [] ∷ codes "-n" ∷ []

arguments-Lacks : All (Lacks 0) arguments
arguments-Lacks = (
  (
    λ e. absurd (omega (arith, e)),
    (λ e. absurd (omega (arith, e)), (λ e. absurd (omega (arith, e)), tt)),
  ),
  (tt, ((λ e. absurd (omega (arith, e)), (λ e. absurd (omega (arith, e)), tt)), tt)),
)

-- a process whose bounding set has the capabilities of two letters
abbrev process_caps : ℤ → Result Text Capabilities
process_caps pid = ok (λ which cap. elim which [ bounding ↦ nat_beq (length cap) 2 | _ ↦ false ])

abbrev all_caps : List Text
all_caps = codes "ab" ∷ codes "abc" ∷ codes "cd" ∷ []

bounding_held :
    held (λ which cap. nat_beq (length cap) 2) bounding all_caps ≡ codes "ab" ∷ codes "cd" ∷ []
bounding_held = refl

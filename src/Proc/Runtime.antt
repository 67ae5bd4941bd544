-- ===== src/Proc/Runtime.antt =====
-- proc/proc.go: `ContainerRuntime`, its constants, `GetContainerRuntime`, `getContainerRuntime` and
-- `IsValidContainerRuntime`.
pub mod Laws
use bpfd.Prelude.{
  Bool, not, ◌&&◌, List, [], ◌∷◌, if◌then◌else◌, Eq, ◌==◌, nat_eq, is_empty, any, ℤ, Text, codes,
  text_eq,
}
use bpfd.Strings.{trim_space, contains, has_prefix}
use bpfd.Proc.{Host, file_exists, read_file_string, task_file}

pub data ContainerRuntime : Type 0 where
  docker rkt nspawn lxc lxc_libvirt open_vz kubernetes : ContainerRuntime
  garden podman g_visor firejail wsl not_found : ContainerRuntime

-- the string behind each constant
unfoldable pub name : ContainerRuntime → Text
name docker = codes "docker"
name rkt = codes "rkt"
name nspawn = codes "systemd-nspawn"
name lxc = codes "lxc"
name lxc_libvirt = codes "lxc-libvirt"
name open_vz = codes "openvz"
name kubernetes = codes "kube"
name garden = codes "garden"
name podman = codes "podman"
name g_visor = codes "gvisor"
name firejail = codes "firejail"
name wsl = codes "wsl"
name not_found = codes "not-found"

-- `ContainerRuntimes`, in the order of the source
abbrev pub container_runtimes : List ContainerRuntime
container_runtimes =
    docker ∷ rkt ∷ nspawn ∷ lxc ∷ lxc_libvirt ∷ open_vz ∷ kubernetes ∷ garden ∷ podman ∷ g_visor
    ∷ firejail ∷ wsl ∷ []

-- the loop of `getContainerRuntime`
unfoldable pub first_contained : Text → List ContainerRuntime → ContainerRuntime
first_contained input [] = not_found
first_contained input (r ∷ rs) = if contains input (name r) then r else first_contained input rs

-- `getContainerRuntime`
unfoldable pub runtime_in : Text → ContainerRuntime
unfolding first_contained
runtime_in input =
    if is_empty (trim_space input) then not_found else first_contained input container_runtimes

-- `if runtime != RuntimeNotFound { return runtime }` before the rest
abbrev pub or_else : ContainerRuntime → ContainerRuntime → ContainerRuntime
or_else not_found rest = rest
or_else r rest = r

-- `GetContainerRuntime`
unfoldable pub get_container_runtime : Host → ℤ → ℤ → ContainerRuntime
get_container_runtime h tgid pid =
    or_else (runtime_in (read_file_string h (task_file tgid pid (codes "cgroup")))) (
      if file_exists h (codes "/proc/vz") && not (file_exists h (codes "/proc/bc"))
      then open_vz
      else if file_exists h (codes "/__runsc_containers__")
      then g_visor
      else or_else (runtime_in (read_file_string h (codes "/proc/1/cmdline"))) (
          if has_prefix (read_file_string h (codes "/proc/version_signature")) (codes "Microsoft")
          then wsl
          else or_else (runtime_in (h.getenv (codes "container")))
              (runtime_in (read_file_string h (codes "/run/systemd/container")))))

-- `IsValidContainerRuntime`
unfoldable pub is_valid_container_runtime : Text → Bool
unfolding name
is_valid_container_runtime s = any (λ r. name r == s) container_runtimes

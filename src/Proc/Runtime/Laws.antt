-- ===== src/Proc/Runtime/Laws.antt =====
-- What the detection of the container runtime returns.
use bpfd.Prelude.{
  ℕ, ◌≡◌, refl, sym, ap, ◌≢◌, ◌↔◌, ◌⊎◌, inl, inr, Bool, true, false, not, ◌&&◌, List, [], ◌∷◌, ◌++◌,
  arith, nat_beq_iff, if-true, if-false, subst, if◌then◌else◌, Bool-cases, ◌==◌, nat_eq, is_empty,
  All, In, any_sound, any_complete, ℤ, Text, codes, text_beq_iff, text_eq,
}
use bpfd.Strings.{is_space, trim_space, has_prefix, contains}
use bpfd.Strings.Trim.{All-is_space}
use bpfd.Strings.Search.{contains_prefix}
use bpfd.Proc.{Host, file_exists, read_file_string, task_file}
use bpfd.Proc.Runtime.{
  ContainerRuntime, not_found, lxc, lxc_libvirt, name, container_runtimes, first_contained,
  runtime_in, or_else, get_container_runtime, is_valid_container_runtime, open_vz, g_visor, wsl,
}

abbrev Absent : Text → ContainerRuntime → Type 0
Absent input r = contains input (name r) ≡ false

-- `r` is the first runtime of `rs` whose name the input holds.
abbrev pub FirstOf : Text → List ContainerRuntime → ContainerRuntime → Type 0
FirstOf input rs r =
    (pre : List ContainerRuntime) × (post : List ContainerRuntime) × (rs ≡ pre ++ r ∷ post)
    × All (Absent input) pre
    × (contains input (name r) ≡ true)

-- No runtime of `rs` is named in the input, and `r` says so, or `r` is the first that is.
abbrev pub Reports : Text → List ContainerRuntime → ContainerRuntime → Type 0
Reports input rs r = (All (Absent input) rs × (r ≡ not_found)) ⊎ FirstOf input rs r

Reports-cons :
    (input : Text) (s r : ContainerRuntime) (rs : List ContainerRuntime)
    → Absent input s
    → Reports input rs r
    → Reports input (s ∷ rs) r
Reports-cons input s r rs a (inl (all, e)) = inl ((a, all), e)
Reports-cons input s r rs a (inr (pre, post, e, all, c)) =
    inr (s ∷ pre, post, ap (λ t. s ∷ t) e, (a, all), c)

first_contained-Reports :
    (input : Text) (rs : List ContainerRuntime) → Reports input rs (first_contained input rs)
unfolding first_contained
first_contained-Reports input [] = inl (tt, refl)
first_contained-Reports input (s ∷ rs) = elim (Bool-cases (contains input (name s))) [
  | inl e ↦ subst (Reports input (s ∷ rs)) (sym (if-true _ _ e)) (inr ([], rs, refl, tt, e))
  | inr e ↦
      subst (Reports input (s ∷ rs)) (sym (if-false _ _ e))
        (Reports-cons input s _ rs e (first_contained-Reports input rs))
]

-- a text of blanks holds no word that begins with another character
blank_lacks :
    (s : Text) (d : ℕ) (p : Text)
    → is_space d ≡ false
    → All (λ c. is_space c ≡ true) s
    → contains s (d ∷ p) ≡ false
unfolding contains has_prefix
blank_lacks [] d p h all = refl
blank_lacks (c ∷ s) d p h (hc, hs) = ground (arith, blank_lacks s d p h hs, nat_beq_iff c d)

blank-All-Absent : (s : Text) → All (λ c. is_space c ≡ true) s → All (Absent s) container_runtimes
unfolding name is_space
blank-All-Absent s all =
    let go = λ (d : ℕ) (p : Text) (h : is_space d ≡ false). blank_lacks s d p h all in
    (
      go _ _ refl,
      (
        go _ _ refl,
        (
          go _ _ refl,
          (
            go _ _ refl,
            (
              go _ _ refl,
              (
                go _ _ refl,
                (
                  go _ _ refl,
                  (go _ _ refl, (go _ _ refl, (go _ _ refl, (go _ _ refl, (go _ _ refl, tt))))),
                ),
              ),
            ),
          ),
        ),
      ),
    )

-- For every input, the early return on blank input included, `getContainerRuntime` returns the first
-- runtime of the list whose name occurs in the input, and "not-found" exactly when none occurs.
pub runtime_in-Reports : (input : Text) → Reports input container_runtimes (runtime_in input)
unfolding runtime_in
runtime_in-Reports input = elim (Bool-cases (is_empty (trim_space input))) [
  | inl e ↦ rw e (inl (blank-All-Absent input (All-is_space input e), refl))
  | inr e ↦ rw e (first_contained-Reports input container_runtimes)
]

libvirt_is_lxc :
    (input : Text) → contains input (name lxc_libvirt) ≡ true → contains input (name lxc) ≡ true
unfolding name
libvirt_is_lxc input = contains_prefix input (codes "lxc") (codes "-libvirt")

-- `getContainerRuntime` never returns "lxc-libvirt": "lxc" stands before it in the list and occurs
-- wherever "lxc-libvirt" does.
pub runtime_in-ne-lxc_libvirt : (input : Text) → runtime_in input ≢ lxc_libvirt
unfolding runtime_in
runtime_in-ne-lxc_libvirt input h = ground (arith, libvirt_is_lxc input)

-- The probes of `GetContainerRuntime` in the order of their precedence.
abbrev pub probes : Host → ℤ → ℤ → List ContainerRuntime
probes h tgid pid =
    runtime_in (read_file_string h (task_file tgid pid (codes "cgroup")))
    ∷ (if file_exists h (codes "/proc/vz") && not (file_exists h (codes "/proc/bc"))
        then open_vz
        else not_found)
    ∷ (if file_exists h (codes "/__runsc_containers__") then g_visor else not_found)
    ∷ runtime_in (read_file_string h (codes "/proc/1/cmdline"))
    ∷ (if has_prefix (read_file_string h (codes "/proc/version_signature")) (codes "Microsoft")
        then wsl
        else not_found)
    ∷ runtime_in (h.getenv (codes "container"))
    ∷ runtime_in (read_file_string h (codes "/run/systemd/container"))
    ∷ []

abbrev pub first_found : List ContainerRuntime → ContainerRuntime
first_found [] = not_found
first_found (r ∷ rs) = or_else r (first_found rs)

or_else-not_found : (r : ContainerRuntime) → or_else r not_found ≡ r
or_else-not_found not_found = refl
or_else-not_found _ = refl

-- the code's early returns as one chain
returns_chain :
    (vz gv ms : Bool) (b c d : ContainerRuntime)
    → (if vz then open_vz else if gv then g_visor else or_else b (if ms then wsl else or_else c d))
      ≡ or_else (if vz then open_vz else not_found) (
          or_else
            (if gv then g_visor else not_found)
            (or_else b (or_else (if ms then wsl else not_found) (or_else c (or_else d not_found)))))
returns_chain true gv ms b c d = refl
returns_chain false true ms b c d = refl
returns_chain false false true b c d = refl
returns_chain false false false b c d = rw or_else-not_found

-- `GetContainerRuntime` returns the first runtime that one of its seven probes finds, the cgroup file
-- first and /run/systemd/container last, and "not-found" if none does; a later probe never overrides
-- an earlier one.
pub get_container_runtime-first_found :
    (h : Host) (tgid pid : ℤ) → get_container_runtime h tgid pid ≡ first_found (probes h tgid pid)
unfolding get_container_runtime
get_container_runtime-first_found h tgid pid =
    ap (or_else (runtime_in (read_file_string h (task_file tgid pid (codes "cgroup"))))) (
      returns_chain (file_exists h (codes "/proc/vz") && not (file_exists h (codes "/proc/bc")))
        (file_exists h (codes "/__runsc_containers__"))
        (has_prefix (read_file_string h (codes "/proc/version_signature")) (codes "Microsoft"))
        (runtime_in (read_file_string h (codes "/proc/1/cmdline")))
        (runtime_in (h.getenv (codes "container")))
        (runtime_in (read_file_string h (codes "/run/systemd/container"))))

or_else-ne : (x r s : ContainerRuntime) → r ≢ x → s ≢ x → or_else r s ≢ x
or_else-ne x not_found s hr hs = hs
or_else-ne x _ s hr hs = hr

if-ne :
    {x : ContainerRuntime} (b : Bool) (r : ContainerRuntime)
    → r ≢ x
    → not_found ≢ x
    → (if b then r else not_found) ≢ x
if-ne true r hr hn = hr
if-ne false r hr hn = hn

first_found-ne :
    (x : ContainerRuntime) (rs : List ContainerRuntime)
    → x ≢ not_found
    → All (λ r. r ≢ x) rs
    → first_found rs ≢ x
first_found-ne x [] n h = λ e. n (sym e)
first_found-ne x (r ∷ rs) n (hr, h) = or_else-ne x r (first_found rs) hr (first_found-ne x rs n h)

-- Whatever the operating system answers, no process is reported to run in "lxc-libvirt".
pub get_container_runtime-ne-lxc_libvirt :
    (h : Host) (tgid pid : ℤ) → get_container_runtime h tgid pid ≢ lxc_libvirt
get_container_runtime-ne-lxc_libvirt h tgid pid = rw get_container_runtime-first_found (
    first_found-ne lxc_libvirt (probes h tgid pid) (λ e. cc)
      (
        runtime_in-ne-lxc_libvirt _,
        (
          if-ne _ open_vz (λ e. cc) (λ e. cc),
          (
            if-ne _ g_visor (λ e. cc) (λ e. cc),
            (
              runtime_in-ne-lxc_libvirt _,
              (
                if-ne _ wsl (λ e. cc) (λ e. cc),
                (runtime_in-ne-lxc_libvirt _, (runtime_in-ne-lxc_libvirt _, tt)),
              ),
            ),
          ),
        ),
      ))

-- A string is a valid container runtime exactly when it is the name of a runtime of the list.
pub is_valid_container_runtime_iff :
    (s : Text)
    → (is_valid_container_runtime s ≡ true)
      ↔ ((r : ContainerRuntime) × In r container_runtimes × (name r ≡ s))
unfolding is_valid_container_runtime
is_valid_container_runtime_iff s = (
  λ h.
      let (r, i, e) = any_sound (λ r. name r == s) container_runtimes h in
      (r, i, (text_beq_iff (name r) s).0 e),
  λ h. any_complete (λ r. name r == s) h.0 container_runtimes h.1 ((text_beq_iff _ s).1 h.2),
)

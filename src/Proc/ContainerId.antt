-- ===== src/Proc/ContainerId.antt =====
-- proc/proc.go: `GetContainerID`, `getContainerID` and the regular expression `cgroupContainerID`.
pub mod Laws
use bpfd.Prelude.{
  Option, none, some, List, [], ◌∷◌, if◌then◌else◌, Eq, nat_eq, is_empty, ℤ, Text, codes, text_eq,
}
use bpfd.Strings.{trim_space, split, replace_all, newline}
use bpfd.Regex.{
  Regex, one, literal, many, at_most, text_end, seq, alt, any_char, id_char, run, first_match,
}
use bpfd.Proc.{Host, task_file, read_file_string}

abbrev dots : Regex
dots = many any_char

abbrev slash : Regex
slash = literal (codes "/")

-- `:(/docker/|/kube.*/.*/|…|/podman/)`
unfoldable pub id_prefix : Regex
id_prefix = seq (literal (codes ":")) (
    alt (literal (codes "/docker/")) (
      alt (seq (literal (codes "/kube")) (seq dots (seq slash (seq dots slash)))) (
        alt
          (seq (literal (codes "/kube"))
            (seq dots (seq slash (seq dots (seq slash (seq dots (seq slash (seq dots slash))))))))
          (alt
            (seq (literal (codes "/system")) (seq (one any_char) (literal (codes "slice/docker-"))))
            (alt
              (seq (literal (codes "/machine"))
                (seq (one any_char) (literal (codes "slice/machine-rkt-"))))
              (alt
                (seq (literal (codes "/machine"))
                  (seq (one any_char) (literal (codes "slice/machine-"))))
                (alt (literal (codes "/lxc/")) (
                  alt (literal (codes "/lxc-libvirt/"))
                    (alt (literal (codes "/garden/")) (literal (codes "/podman/")))))))))))

-- `[[:alnum:]\-]{1,64}`
unfoldable pub id_body : Regex
id_body = seq (one id_char) (at_most 63 id_char)

-- `(.scope|$)`
unfoldable pub id_suffix : Regex
id_suffix = alt (seq (one any_char) (literal (codes "scope"))) text_end

abbrev accept_body : Text × Text → Option Text
accept_body m = if is_empty (run id_suffix m.1) then none else some m.0

-- the second group of a match that starts at the start of the text
unfoldable pub id_at : Text → Option Text
unfolding run first_match id_prefix id_body id_suffix
id_at s = first_match (λ m. first_match accept_body (run id_body m.1)) (run id_prefix s)

-- `FindStringSubmatch`: the match that starts leftmost
unfoldable pub find_id : Text → Option Text
find_id [] = id_at []
find_id (c ∷ s) = let rest = find_id s in elim (id_at (c ∷ s)) [ none ↦ rest | some t ↦ some t ]

unfoldable pub first_id : List Text → Text
first_id [] = []
first_id (line ∷ lines) =
    let rest = first_id lines in elim (find_id line) [ none ↦ rest | some t ↦ t ]

-- `getContainerID`; rkt encodes a dash as `\x2d`
unfoldable pub id_in : Text → Text
unfolding first_id find_id id_at replace_all split trim_space
id_in input =
    if is_empty (trim_space input)
    then []
    else first_id (split (replace_all input (codes "\\x2d") (codes "-")) newline)

-- `GetContainerID`
unfoldable pub get_container_id : Host → ℤ → ℤ → Text
unfolding task_file read_file_string
get_container_id h tgid pid = id_in (read_file_string h (task_file tgid pid (codes "cgroup")))

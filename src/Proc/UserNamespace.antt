-- ===== src/Proc/UserNamespace.antt =====
-- proc/proc.go: `UserMapping`, `GetUserNamespaceInfo` and `readUserMappings`.
pub mod Laws
use bpfd.Prelude.{
  Bool, true, false, ◌&&◌, Option, none, some, List, [], ◌∷◌, ◌++◌, ltb, if◌then◌else◌, Eq, nat_eq,
  length, Result, ok, err, ◌>>=◌, ℤ, pos, int_beq, Text, codes, text_eq,
}
use bpfd.Strings.{split, blank}
use bpfd.Strconv.{NumError, parse_int}
use bpfd.Proc.{Host, delete_empty, pid_file, read_file_string}

pub record UserMapping : Type 0 where
  pub container_id : ℤ
  pub host_id : ℤ
  pub range : ℤ

abbrev pub uint32_max : ℤ
uint32_max = pos 4294967295

unfoldable pub parse_mapping : Text → Text → Text → Result NumError UserMapping
parse_mapping nsu hu r = do
  c ← parse_int nsu
  h ← parse_int hu
  n ← parse_int r
  ok (record { container_id = c; host_id = h; range = n })

-- the mapping of the initial user namespace, which is the identity on all ids
unfoldable pub is_initial : UserMapping → Bool
is_initial m =
    int_beq m.container_id (pos 0) && int_beq m.host_id (pos 0) && int_beq m.range uint32_max

-- The loop of `readUserMappings`, three parts at a time. `none` is the panic of `parts[i+1]` or
-- `parts[i+2]` out of range; `(false, [])` is each of its early returns.
unfoldable pub read_mappings : List Text → List UserMapping → Option (Bool × List UserMapping)
unfolding parse_mapping is_initial
read_mappings [] mappings = some (true, mappings)
read_mappings (nsu ∷ []) mappings = none
read_mappings (nsu ∷ hu ∷ []) mappings = none
read_mappings (nsu ∷ hu ∷ r ∷ parts) mappings = elim (parse_mapping nsu hu r) [
  | err e ↦ some (false, [])
  | ok m ↦
      let rest = read_mappings parts (mappings ++ m ∷ []) in
      if is_initial m then some (false, []) else rest
]

-- `readUserMappings`
unfoldable pub read_user_mappings : Text → Option (Bool × List UserMapping)
unfolding split delete_empty read_mappings
read_user_mappings f =
    let parts = delete_empty (split f blank) in
    if ltb (length parts) 3 then some (false, []) else read_mappings parts []

-- `GetUserNamespaceInfo`; `readUserMappings` returns no error, and no length is below zero
unfoldable pub get_user_namespace_info : Host → ℤ → Option (Bool × List UserMapping)
get_user_namespace_info h pid =
    let f = read_file_string h (pid_file pid (codes "uid_map")) in
    if ltb (length f) 0 then some (true, []) else read_user_mappings f

-- ===== src/Tracer/DockerOpenBreakout/Laws.antt =====
-- Which opened files the tracer reports as outside the container.
use bpfd.Prelude.{
  ℕ, ◌≡◌, refl, ◌≢◌, ◌⊎◌, inl, inr, true, false, none, List, [], Bool-cases, ◌==◌, nat_eq, is_empty,
  Result, ok, pos, Text, text_eq,
}
use bpfd.Strings.{any_prefix}
use bpfd.Proc.{Host}
use bpfd.Proc.Runtime.{docker, get_container_runtime, name}
use bpfd.Proc.ContainerId.{get_container_id}
use bpfd.Tracer.{returned}
use bpfd.Tracer.Open.{OpenEvent, filename_of}
use bpfd.Tracer.DockerOpenBreakout.{check_container}

module _ (inspect : Text → Result Text (List Text)) where
  -- The process runs in docker, in the container `id`, and the file is below none of its mounts.
  abbrev pub IsOutside : Host → OpenEvent → Text → Type 0
  IsOutside h e id =
      (name (get_container_runtime h (pos e.tgid) (pos e.pid)) ≡ name docker)
      × (get_container_id h (pos e.tgid) (pos e.pid) ≡ id)
      × (id ≢ [])
      × ((mounts : List Text) × (inspect id ≡ ok mounts)
          × (any_prefix (filename_of e) mounts ≡ false))

  pub check_container_out :
      (h : Host) (e : OpenEvent) (ids : ℕ × ℕ)
      → ((name (get_container_runtime h (pos e.tgid) (pos e.pid)) == name docker) ≡ false)
        ⊎ (is_empty (get_container_id h (pos e.tgid) (pos e.pid)) ≡ true)
      → check_container inspect h e ids ≡ returned none
  unfolding check_container
  check_container_out h e ids (inl f) = rw (f, check_container) refl
  check_container_out h e ids (inr t) =
      elim (Bool-cases (name (get_container_runtime h (pos e.tgid) (pos e.pid)) == name docker)) [
        | inl d ↦ rw (d, check_container, t) refl
        | inr d ↦ rw (d, check_container) refl
      ]

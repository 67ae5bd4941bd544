-- ===== src/Tracer/DockerOpenBreakout.antt =====
-- tracer/dockeropenbreakout/dockeropenbreakout.go: `WatchEvent` and `hasPrefix`. Its `openEvent` has
-- the fields of the one of tracer/open/open.go, and the two read and ignore events by the same code.
-- The client of docker is a parameter, `inspect`: what `ContainerInspect` answers for an ID, an error
-- or the values of `GraphDriver.Data` in the order in which the range gives them.
pub mod Laws
use bpfd.Prelude.{
  ℕ, not, none, some, List, if◌then◌else◌, Eq, ◌==◌, nat_eq, is_empty, Result, ok, err, pos, Text,
  text_eq,
}
use bpfd.Grpc.{Event}
use bpfd.Strings.{any_prefix}
use bpfd.Proc.{Host}
use bpfd.Proc.Status.{get_uid_gid}
use bpfd.Proc.Runtime.{ContainerRuntime, docker, get_container_runtime, name}
use bpfd.Proc.ContainerId.{get_container_id}
use bpfd.Tracer.{WatchResult, returned, decode_failed, ids_failed, inspect_failed}
use bpfd.Tracer.Open.{OpenEvent, read_open_event, is_own, filename_of, to_event}

unfoldable pub with_container : Event → Text → Text → Event
with_container e runtime id = record {
  pid = e.pid;
  tgid = e.tgid;
  uid = e.uid;
  gid = e.gid;
  command = e.command;
  return_value = e.return_value;
  event_data = e.event_data;
  container_id = id;
  container_runtime = runtime;
  tracer = e.tracer;
}

module _ (inspect : Text → Result Text (List Text)) where
  -- from the inspection of the container on
  unfoldable pub check_mounts : OpenEvent → Event → WatchResult
  unfolding filename_of any_prefix
  check_mounts e event = elim (inspect event.container_id) [
    | err _ ↦ inspect_failed event.container_id
    | ok mounts ↦ if any_prefix (filename_of e) mounts then returned none else returned (some event)
  ]

  -- from the container's runtime on
  unfoldable pub check_container : Host → OpenEvent → ℕ × ℕ → WatchResult
  unfolding get_container_runtime get_container_id name to_event with_container check_mounts
  check_container h e ids =
      let runtime = name (get_container_runtime h (pos e.tgid) (pos e.pid)) in
      let id = get_container_id h (pos e.tgid) (pos e.pid) in
      if not (runtime == name docker)
      then returned none
      else if is_empty id
      then returned none
      else check_mounts e (with_container (to_event e ids) runtime id)

  unfoldable pub watch_open : Host → OpenEvent → WatchResult
  unfolding is_own get_uid_gid check_container
  watch_open h e =
      if is_own e then returned none else elim (get_uid_gid h (pos e.tgid) (pos e.pid)) [
        | err _ ↦ ids_failed e.pid
        | ok ids ↦ check_container h e ids
      ]

  -- `WatchEvent` of this tracer on a buffer
  unfoldable pub watch_event : Host → Text → WatchResult
  unfolding read_open_event watch_open
  watch_event h buffer = elim (read_open_event buffer) [
    | none ↦ decode_failed
    | some (e, _) ↦ watch_open h e
  ]

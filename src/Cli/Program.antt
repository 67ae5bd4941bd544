-- ===== src/Cli/Program.antt =====
-- main.go and client.go: the check before every command, the connection, and the four commands that talk to
-- a running daemon. Dialling is a parameter; the flags and their parsing are left out.
pub mod Sends
pub mod Laws
use bpfd.Prelude.{
  Bool, not, Option, none, some, List, ◌++◌, if◌then◌else◌, Eq, nat_eq, is_empty, Result, ok, err,
  Text, codes, text_eq,
}
use bpfd.Grpc.{Rule}
use bpfd.Proc.{Host}
use bpfd.Api.{Server}
use bpfd.Api.Trace.{open_stream}
use bpfd.Cli.{CliError, create_command, remove_command}
use bpfd.Cli.Listing.{list_command}

-- `p.Before`: false is the error on an empty address
unfoldable pub before : Text → Bool
before grpc_address = not (is_empty grpc_address)

-- `getClient`: `dial` is the error of `grpc.Dial` for an address
unfoldable pub get_client : (Text → Option Text) → Text → Result Text (Unit {0})
get_client dial address = elim (dial address) [
  | some e ↦ err (codes "creating grpc connection to " ++ address ++ codes " failed: " ++ e)
  | none ↦ ok tt
]

-- The commands of `p.Commands` that are clients, with their arguments.
pub data Command : Type 0 where
  create remove : List Text → Command
  list trace : Command

-- A run of the program with a command: the daemon's server behind it. A list does not change the server,
-- and a trace opens a stream; what the stream does then are steps of the daemon.
unfoldable pub run_command :
    (Text → Result Text Rule) → Host → (Text → Option Text) → Text → Command → Server → Server
unfolding before get_client create_command remove_command open_stream
run_command decode h dial address (create args) s =
    if before address then (create_command decode h (get_client dial address) args s).server else s
run_command decode h dial address (remove args) s =
    if before address then (remove_command (get_client dial address) args s).server else s
run_command decode h dial address list s = s
run_command decode h dial address trace s =
    if before address
    then elim (get_client dial address) [ err e ↦ s | ok _ ↦ open_stream s ]
    else s

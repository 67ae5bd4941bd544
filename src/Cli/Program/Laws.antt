-- ===== src/Cli/Program/Laws.antt =====
-- A client's command is an execution of the daemon.
use bpfd.Prelude.{◌≡◌, ◌⊎◌, true, false, Option, none, some, nat_eq, Text, text_eq}
use bpfd.Cli.Program.{before}
use bpfd.Cli.Program
use bpfd.Cli.Program.Sends.{Sends}

-- The program has a client: the address is not empty and can be dialled.
abbrev pub HasClient : (Text → Option Text) → Text → Type 0
HasClient dial address = (before address ≡ true) × (dial address ≡ none)

-- It has none: the address is empty or cannot be dialled.
abbrev pub HasNoClient : (Text → Option Text) → Text → Type 0
HasNoClient dial address = (before address ≡ false) ⊎ ((x : Text) × (dial address ≡ some x))

-- ===== src/Action.antt =====
-- action/action.go and the actions of action/stdout, action/kill and action/interrupt: the registry,
-- and what `Do` does with an event. The operating system's answers are arguments.
pub mod Stdout
pub mod Effects
use bpfd.Prelude.{
  ℕ, Option, none, some, List, [], ◌∷◌, ◌++◌, nat_eq, Result, ok, err, Text, text_eq,
}
use bpfd.Grpc.{Event}
use bpfd.GoMap.{lookup, insert, keys}
use bpfd.Strings.{format_nat, tab, newline}

pub data ActionError : Type 0 where
  action_already_registered unknown_action action_init_failed : Text → ActionError
  find_failed signal_failed : ℕ → Text → ActionError

-- an action that `InitFunc` makes, by its name; `none` is a failure of the function
abbrev pub InitFunc : Type 0
InitFunc = Option Text

abbrev pub Registered : Type 0
Registered = List (Text × InitFunc)

-- `Register`
unfoldable pub register_action :
    Text → InitFunc → Registered → Result ActionError (Unit {0}) × Registered
register_action name init_func actions = elim (lookup name actions) [
  | some _ ↦ (err (action_already_registered name), actions)
  | none ↦ (ok tt, insert name init_func actions)
]

-- `Get`
unfoldable pub get_action : Text → Registered → Result ActionError Text
get_action name actions = elim (lookup name actions) [
  | none ↦ err (unknown_action name)
  | some none ↦ err (action_init_failed name)
  | some (some a) ↦ ok a
]

-- `List`
unfoldable pub list_actions : Registered → List Text
unfolding keys
list_actions actions = keys actions

-- the line that the action "stdout" prints
unfoldable pub stdout_line : Event → Text
unfolding format_nat
stdout_line e =
    e.tracer
    ++ (tab ∷ format_nat e.pid)
    ++ (tab ∷ format_nat e.tgid)
    ++ (tab ∷ format_nat e.uid)
    ++ (tab ∷ format_nat e.gid)
    ++ (tab ∷ e.command)
    ++ (tab ∷ e.container_runtime)
    ++ (tab ∷ e.container_id)
    ++ newline ∷ []

-- `Do` of "kill": `find` is `os.FindProcess` and `signal` the signal sent to the
-- process found, each with the error that it returns
unfoldable pub signal_process :
    (ℕ → Option Text) → (ℕ → Option Text) → Event → Result ActionError (Unit {0})
signal_process find signal e = elim (find e.pid) [
  | some x ↦ err (find_failed e.pid x)
  | none ↦ elim (signal e.pid) [ some x ↦ err (signal_failed e.pid x) | none ↦ ok tt ]
]

-- `Do` of "interrupt", which sends another signal by the same steps
unfoldable pub interrupt_process :
    (ℕ → Option Text) → (ℕ → Option Text) → Event → Result ActionError (Unit {0})
interrupt_process find signal e = elim (find e.pid) [
  | some x ↦ err (find_failed e.pid x)
  | none ↦ elim (signal e.pid) [ some x ↦ err (signal_failed e.pid x) | none ↦ ok tt ]
]

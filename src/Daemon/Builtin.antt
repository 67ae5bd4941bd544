-- ===== src/Daemon/Builtin.antt =====
-- The tracers and actions that daemon.go compiles in: the `init` functions of the packages under tracer/ and
-- action/, which fill the two registries. Each ignores the error of `Register`.
pub mod Laws
use bpfd.Prelude.{Bool, true, some, [], Eq, nat_eq, codes, text_eq}
use bpfd.Action
use bpfd.Action.{register_action}
use bpfd.Tracer
use bpfd.Tracer.{register}

-- `init` of each tracer; an `Init` that only makes an object does not fail
unfoldable pub init_readline : Tracer.Registered → Tracer.Registered
unfolding register
init_readline tracers = (register (codes "bashreadline") true tracers).1

-- `Init` of this one fails when the docker client cannot be made from the environment
unfoldable pub init_breakout : Bool → Tracer.Registered → Tracer.Registered
unfolding register
init_breakout docker tracers = (register (codes "dockeropenbreakout") docker tracers).1

unfoldable pub init_exec : Tracer.Registered → Tracer.Registered
unfolding register
init_exec tracers = (register (codes "exec") true tracers).1

unfoldable pub init_open : Tracer.Registered → Tracer.Registered
unfolding register
init_open tracers = (register (codes "open") true tracers).1

unfoldable pub init_tcpdrop : Tracer.Registered → Tracer.Registered
unfolding register
init_tcpdrop tracers = (register (codes "tcpdrop") true tracers).1

-- the registry behind the imports of the tracers
unfoldable pub builtin_tracers : Bool → Tracer.Registered
unfolding init_readline init_breakout init_exec init_open init_tcpdrop
builtin_tracers docker =
    init_tcpdrop (init_open (init_exec (init_breakout docker (init_readline []))))

-- `init` of each action
unfoldable pub init_interrupt : Action.Registered → Action.Registered
unfolding register_action
init_interrupt actions = (register_action (codes "interrupt") (some (codes "interrupt")) actions).1

unfoldable pub init_kill : Action.Registered → Action.Registered
unfolding register_action
init_kill actions = (register_action (codes "kill") (some (codes "kill")) actions).1

unfoldable pub init_stdout : Action.Registered → Action.Registered
unfolding register_action
init_stdout actions = (register_action (codes "stdout") (some (codes "stdout")) actions).1

-- the registry behind the imports of the actions
unfoldable pub builtin_actions : Action.Registered
unfolding init_interrupt init_kill init_stdout
builtin_actions = init_stdout (init_kill (init_interrupt []))

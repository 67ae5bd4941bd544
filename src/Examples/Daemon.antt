-- ===== src/Examples/Daemon.antt =====
-- The theorem about daemon.go at a concrete start.
use bpfd.Prelude.{
  ◌≡◌, refl, true, false, none, some, [], ◌∷◌, if◌then◌else◌, ◌==◌, nat_eq, ok, Text, codes,
  text_beq, text_eq,
}
use bpfd.Action
use bpfd.Tracer
use bpfd.Api.{Server}
use bpfd.Tracer.Loading.{
  Bcc, Methods, open_tracer, exec_tracer, breakout_tracer, tcpdrop_tracer, readline_tracer,
}
use bpfd.Daemon.{System, start}
use bpfd.Examples.Rules.{decode, echo_host, table}

-- a kernel where no call fails
abbrev kernel : Bcc
kernel = record {
  compiles = λ p. true;
  load_kprobe = λ p. none;
  attach_kprobe = λ f. none;
  attach_kretprobe = λ f. none;
  load_uprobe = λ p. none;
  attach_uretprobe = λ p s. none;
  init_perf_map = none;
  get_syscall_fn_name = λ n. n;
}

-- the methods of the five tracers by their names
abbrev pub methods : Text → Methods
methods p =
    if p == codes "open"
    then open_tracer
    else if p == codes "exec"
    then exec_tracer
    else if p == codes "dockeropenbreakout"
    then breakout_tracer
    else if p == codes "tcpdrop"
    then tcpdrop_tracer
    else readline_tracer

abbrev pub system : System
system = record {
  files = ok (codes "passwd.toml" ∷ []);
  mkdir_error = none;
  remove_error = some (codes "busy");
  listen_error = none;
  bcc = kernel;
  methods = methods;
}

abbrev pub compiled_tracers : Tracer.Registered
compiled_tracers = (codes "open", true) ∷ []

abbrev pub compiled_actions : Action.Registered
compiled_actions = (codes "stdout", some (codes "stdout")) ∷ []

abbrev pub started : Server
started = record {
  rules = table;
  actions = codes "stdout" ∷ [];
  tracer_list = codes "open" ∷ [];
  action_list = codes "stdout" ∷ [];
  is_streaming = false;
  events = [];
}

pub start-started : start decode echo_host system compiled_tracers compiled_actions ≡ ok started
unfolding start bpfd.Rules.parse text_beq bpfd.Proc.Runtime.is_valid_container_runtime Tracer.get
    bpfd.GoMap.lookup Action.get_action bpfd.GoMap.insert bpfd.Rules.validate_tracers_and_actions
    bpfd.Rules.is_in open_tracer
start-started = refl

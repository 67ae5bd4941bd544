-- ===== src/Examples/Builtin.antt =====
-- The theorems about the compiled daemon as a whole, from a call in the kernel to a killed process.
use bpfd.Prelude.{
  ℕ, ◌≡◌, refl, ◌↔◌, ◌⊎◌, true, false, Option, none, some, List, [], ◌∷◌, ◌++◌, map, arith, nat_eq,
  length, In, ok, Text, codes, text_beq, text_eq,
}
use bpfd.Grpc.{Rule, CreateRuleRequest, Event}
use bpfd.GoMap.{lookup}
use bpfd.Action
use bpfd.Action.Effects.{Os, killed, do_all}
use bpfd.Action.Stdout.{read_output, output, fields, IsPlain, read_output-output}
use bpfd.Tracer
use bpfd.Tracer.{list}
use bpfd.Tracer.Exec
use bpfd.Tracer.Exec.{ExecEvent, args_of}
use bpfd.Tracer.Exec.Laws.{run}
use bpfd.Tracer.Open
use bpfd.Tracer.Open.{is_own}
use bpfd.Bpf.Exec.{execve_return, layout}
use bpfd.Bpf.Open.Laws.{event_of as open_event_of, sent}
use bpfd.Api.{Server, create_rule}
use bpfd.Api.Loop.{Performed, complete}
use bpfd.Api.Loop.Laws.{rules_of}
use bpfd.Api.Loop.Watch.{Ran, watch_round}
use bpfd.Tracer.Loading.{Program, load_all}
use bpfd.Tracer.Loading.Laws.{AreWatching}
use bpfd.Daemon.{start, programs}
use bpfd.Daemon.Builtin.{builtin_tracers, builtin_actions}
use bpfd.Daemon.Builtin.Laws.{tracer_names, action_names, start_builtin}
use bpfd.Daemon.Shutdown.{
  exited, crashed, handle_signal, unloaded, AllMade, OneFails, handle_signal_cases,
}
use bpfd.Cli.Program.{run_command}
use bpfd.Cli.Program
use bpfd.Cli.Program.Sends.{Sends}
use bpfd.System.{create, perform, initially}
use bpfd.System.Invariant.{IsServing, perform-IsServing}
use bpfd.System.Kernel.{call_event, call_data, open_event, open_data, open_actions}
use bpfd.Tracer.BashReadline
use bpfd.Tracer.DockerOpenBreakout
use bpfd.Bpf.BashReadline.{layout as line_layout}
use bpfd.Bpf.BashReadline.Laws.{data_of}
use bpfd.System.Inert.{NoNul, readline_round, breakout_round}
use bpfd.System.Kill.{Kills, execve-killed}
use bpfd.Examples.Rules.{decode, echo_host, table}
use bpfd.Examples.Daemon.{system}
use bpfd.Examples.Kernel.{
  memory, memory-IsMemory, behind, shell, shell-IsTask, bare_host, shell-IsForeign, shell-IsArgv,
  own, other, own_events, listing, listing-IsTask, listing_comm, letters, letters-IsMemory,
  line_read,
}

abbrev compiled : Server
compiled = record {
  rules = table;
  actions = action_names;
  tracer_list = tracer_names;
  action_list = action_names;
  is_streaming = false;
  events = [];
}

start-compiled : start decode echo_host system (builtin_tracers true) builtin_actions ≡ ok compiled
unfolding start bpfd.Rules.parse text_beq bpfd.Proc.Runtime.is_valid_container_runtime Tracer.get
    bpfd.GoMap.lookup Action.get_action bpfd.GoMap.insert bpfd.Rules.validate_tracers_and_actions
    bpfd.Rules.is_in bpfd.Tracer.Loading.open_tracer bpfd.Tracer.Loading.exec_tracer
    bpfd.Tracer.Loading.breakout_tracer bpfd.Tracer.Loading.tcpdrop_tracer
    bpfd.Tracer.Loading.readline_tracer builtin_tracers builtin_actions
start-compiled = refl

compiled-IsServing : IsServing compiled
compiled-IsServing =
    let (docker, traced, loaded, made, serves) =
      start_builtin decode echo_host system true (builtin_tracers true) builtin_actions compiled
        compiled [] (λ k. refl) (λ k. refl) start-compiled initially in
    serves

start_builtin_example :
    (true ≡ true)
    × ((n : Text) → In n compiled.tracer_list ↔ In n tracer_names)
    × ((qs : List Program) × (load_all system.bcc (programs system compiled.tracer_list)
          ≡ (ok tt, qs))
        × AreWatching system.bcc (programs system compiled.tracer_list) qs)
    × ((n : Text) → In n compiled.actions ↔ In n action_names)
    × IsServing compiled
start_builtin_example =
    start_builtin decode echo_host system true (builtin_tracers true) builtin_actions compiled
      compiled [] (λ k. refl) (λ k. refl) start-compiled initially

handle_signal_cases_example :
    (AllMade (builtin_tracers true) (list (builtin_tracers true))
      × (handle_signal (builtin_tracers true) (true ∷ true ∷ [])
          ≡ exited 0 ((true ∷ true ∷ []) ++ unloaded (length (list (builtin_tracers true))))))
    ⊎ (OneFails (builtin_tracers true) (list (builtin_tracers true))
        × (handle_signal (builtin_tracers true) (true ∷ true ∷ []) ≡ crashed))
handle_signal_cases_example = handle_signal_cases (builtin_tracers true) (true ∷ true ∷ [])

-- a rule that kills what runs `ls`
abbrev kill_ls : Rule
kill_ls = record {
  name = codes "ls";
  tracer = codes "exec";
  filter_events = (codes "argv", record { values = codes "/bin/ls" ∷ [] }) ∷ [];
  container_runtimes = [];
  actions = codes "kill" ∷ [];
}

abbrev request : Option CreateRuleRequest
request = some (record { rule = some kill_ls })

abbrev pub killing : Server
killing = (create_rule request compiled).1

pub killing-IsServing : IsServing killing
unfolding perform
killing-IsServing =
    perform-IsServing echo_host (create request) compiled killing [] compiled-IsServing refl

-- a system that lets everything be killed
abbrev os : Os
os = record { find = λ n. none; kill = λ n. none; interrupt = λ n. none }

execve-killed_example :
    (next : Server) × (now : Performed) × (watch_round bare_host
        (codes "exec")
        (Exec.watch_event bare_host
          (layout (execve_return listing 0))
          (run bare_host (other ∷ own) [])).0
        killing
      ≡ some (next, now))
    × ((n : ℕ)
        → In (killed n) (do_all os now) ↔ (
            (listing.pid ≡ n)
            × Kills
                (complete bare_host
                  (codes "exec")
                  (call_event [] memory listing 3000 0 (2000 ∷ []) (codes "ls")))
                (call_data [] memory listing 3000 (2000 ∷ []))
                (rules_of (codes "exec") killing)
                killing
            × (os.find n ≡ none)
            × (os.kill n ≡ none)))
execve-killed_example =
    execve-killed os bare_host memory behind shell listing 3000 1000 0 (2000 ∷ []) (other ∷ own) []
      (codes "ls") killing listing-IsTask refl shell-IsArgv own_events listing_comm shell-IsForeign
      killing-IsServing

not_own : is_own (open_event_of memory shell 3000 3) ≡ false
unfolding is_own text_beq
not_own = refl

open_actions_example :
    Ran bare_host
      (codes "open")
      (Open.watch_event bare_host (sent memory shell 3000 3 (0 ∷ [])))
      (open_event memory shell 3000 3)
      (open_data memory 3000)
      killing
    × ((open_event memory shell 3000 3).uid ≡ 0)
    × ((open_event memory shell 3000 3).gid ≡ 0)
    × ((complete bare_host (codes "open") (open_event memory shell 3000 3)).container_id ≡ [])
open_actions_example =
    open_actions bare_host memory shell 3000 3 (0 ∷ []) killing memory-IsMemory shell-IsTask
      shell-IsForeign not_own killing-IsServing

abbrev called : Event
called = call_event [] memory shell 3000 0 (2000 ∷ []) (codes "sh")

called-IsPlain : IsPlain called
unfolding Exec.to_event bpfd.Strings.trim_space
called-IsPlain = record {
  tracer = (tt, tt);
  command = omega arith;
  runtime = (tt, tt);
  id = (tt, tt);
}

read_output-output_example :
    read_output (output (called ∷ called ∷ [])) ≡ map fields (called ∷ called ∷ [])
read_output-output_example =
    read_output-output (called ∷ called ∷ []) (called-IsPlain, (called-IsPlain, tt))

abbrev dial : Text → Option Text
dial address = none

abbrev remove_ls : Program.Command
remove_ls = Program.remove (codes "ls" ∷ [])

abbrev after_remove : Server
after_remove = run_command decode echo_host dial (codes "sock") remove_ls killing

readline_round_example :
    (NoNul (letters 80 500)
      × (watch_round echo_host
            (codes "bashreadline")
            (BashReadline.watch_event (line_layout (data_of letters shell 500)))
            killing
          ≡ none))
    ⊎ ((text : Text) × (rest : Text) × (letters 80 500 ≡ text ++ 0 ∷ rest)
        × NoNul text
        × (watch_round echo_host
              (codes "bashreadline")
              (BashReadline.watch_event (line_layout (data_of letters shell 500)))
              killing
            ≡ some (killing, [])))
readline_round_example =
    readline_round echo_host killing letters shell 500 (data_of letters shell 500) letters-IsMemory
      shell-IsTask line_read

breakout_round_example :
    watch_round bare_host
      (codes "dockeropenbreakout")
      (DockerOpenBreakout.watch_event (λ id. ok []) bare_host (sent memory shell 3000 3 (0 ∷ [])))
      killing
    ≡ some (killing, [])
breakout_round_example =
    breakout_round (λ id. ok []) bare_host killing memory shell 3000 3 (0 ∷ []) memory-IsMemory
      shell-IsTask shell-IsForeign

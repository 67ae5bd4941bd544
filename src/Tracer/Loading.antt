-- ===== src/Tracer/Loading.antt =====
-- `Load`, `Start` and `Unload` of the five tracers, and the loop of `NewServer` in api/api.go that loads and
-- starts them. What gobpf answers is a parameter.
pub mod Laws
use bpfd.Prelude.{
  Bool, true, false, Option, none, some, List, [], ◌∷◌, ◌++◌, if◌then◌else◌, Eq, nat_eq, Result, ok,
  err, Text, codes, text_eq,
}

-- The calls of gobpf's package bcc that may fail, by their arguments: whether `NewModule` compiles the source
-- of a tracer, and the errors that the others return.
pub record Bcc : Type 0 where
  pub compiles : Text → Bool
  pub load_kprobe : Text → Option Text
  pub attach_kprobe : Text → Option Text
  pub attach_kretprobe : Text → Option Text
  pub load_uprobe : Text → Option Text
  pub attach_uretprobe : Text → Text → Option Text
  pub init_perf_map : Option Text
  pub get_syscall_fn_name : Text → Text

-- The bpf side of a tracer object: whether `p.module` is open, the functions that its probes are attached
-- to, whether `p.perfMap` is there, and whether it runs.
pub record Object : Type 0 where
  pub module_open : Bool
  pub attached : List Text
  pub perf_map : Bool
  pub running : Bool

-- the object that `Init` makes
abbrev pub fresh : Object
fresh = record { module_open = false; attached = []; perf_map = false; running = false }

-- The errors that `Load` returns, and `no_module`, the panic of a call on the nil module that `NewModule` gives
-- for a source that does not compile.
pub data LoadError : Type 0 where
  no_module : LoadError
  load_probe_failed attach_probe_failed load_return_failed attach_return_failed
        init_perf_map_failed :
      Text → LoadError

abbrev pub Loaded : Type 0
Loaded = Result LoadError (Unit {0}) × Object

-- `p.module = bpf.NewModule(source, …)`, the name of a tracer standing for its source: nil if the source does
-- not compile
abbrev pub new_module : Bcc → Text → Object → Object
new_module bcc source o = record o { module_open = bcc.compiles source; attached = [] }

-- a call on the module, which panics if there is none
abbrev pub on_module : Object → Loaded → Loaded
on_module o rest = if o.module_open then rest else (err no_module, o)

abbrev pub attach : Text → Object → Object
attach fn o = record o { attached = o.attached ++ fn ∷ [] }

-- `p.perfMap, err = bpf.InitPerfMap(…)`, which returns no map with an error
unfoldable pub init_map : Bcc → Object → Loaded
init_map bcc o = elim bcc.init_perf_map [
  | some e ↦ (err (init_perf_map_failed e), record o { perf_map = false })
  | none ↦ (ok tt, record o { perf_map = true })
]

-- `if err != nil { return … }` behind a call, with the object as it is then
abbrev pub check : Option Text → (Text → LoadError) → Object → Loaded → Loaded
check (some e) failed o rest = (err (failed e), o)
check none failed o rest = rest

-- `Load` of the tracers with a probe at the entry of a kernel function and one at its return
unfoldable pub load_kprobes : Text → Text → Text → Text → Bcc → Object → Loaded
unfolding init_map
load_kprobes source entry return fn bcc o =
    let opened = new_module bcc source o in
    let one = attach fn opened in
    on_module opened (
      check (bcc.load_kprobe entry) load_probe_failed opened (
        check (bcc.attach_kprobe fn) attach_probe_failed opened (
          check (bcc.load_kprobe return) load_return_failed one (
            check (bcc.attach_kretprobe fn) attach_return_failed one
              (init_map bcc (attach fn one))))))

unfoldable pub load_open : Bcc → Object → Loaded
unfolding load_kprobes
load_open bcc o =
    load_kprobes (codes "open") (codes "trace_entry") (codes "trace_return") (codes "do_sys_open")
      bcc o

unfoldable pub load_breakout : Bcc → Object → Loaded
unfolding load_kprobes
load_breakout bcc o =
    load_kprobes (codes "dockeropenbreakout") (codes "trace_entry") (codes "trace_return")
      (codes "do_sys_open") bcc o

unfoldable pub load_tcpdrop : Bcc → Object → Loaded
unfolding load_kprobes
load_tcpdrop bcc o =
    load_kprobes (codes "tcpdrop") (codes "trace_entry") (codes "trace_return") (codes "tcp_drop")
      bcc o

unfoldable pub load_exec : Bcc → Object → Loaded
unfolding load_kprobes
load_exec bcc o =
    load_kprobes (codes "exec") (codes "syscall__execve") (codes "do_ret_sys_execve")
      (bcc.get_syscall_fn_name (codes "execve")) bcc o

unfoldable pub load_readline : Bcc → Object → Loaded
unfolding init_map
load_readline bcc o =
    let opened = new_module bcc (codes "bashreadline") o in
    on_module opened (
      check (bcc.load_uprobe (codes "get_return_value")) load_return_failed opened (
        check (bcc.attach_uretprobe (codes "/bin/bash") (codes "readline")) attach_return_failed
          opened (init_map bcc (attach (codes "readline") opened))))

-- `Start`
abbrev pub start_tracer : Object → Object
start_tracer o = record o { running = true }

-- `p.perfMap.Stop()` if there is a map
abbrev pub stop_map : Object → Object
stop_map o = if o.perf_map then record o { running = false } else o

-- `p.module.Close()` if there is a module, which detaches its probes
abbrev pub close_module : Object → Object
close_module o = if o.module_open then record o { module_open = false; attached = [] } else o

-- `Unload`
unfoldable pub unload_tracer : Object → Object
unload_tracer o = close_module (stop_map o)

-- The methods of the interface `Tracer` that have to do with the kernel, and `String`.
pub record Methods : Type 0 where
  pub string : Text
  pub load : Bcc → Object → Loaded
  pub start : Object → Object
  pub unload : Object → Object

unfoldable pub open_tracer : Methods
unfolding load_open unload_tracer
open_tracer = record {
  string = codes "open";
  load = load_open;
  start = start_tracer;
  unload = unload_tracer;
}

unfoldable pub exec_tracer : Methods
unfolding load_exec unload_tracer
exec_tracer = record {
  string = codes "exec";
  load = load_exec;
  start = start_tracer;
  unload = unload_tracer;
}

unfoldable pub breakout_tracer : Methods
unfolding load_breakout unload_tracer
breakout_tracer = record {
  string = codes "dockeropenbreakout";
  load = load_breakout;
  start = start_tracer;
  unload = unload_tracer;
}

unfoldable pub tcpdrop_tracer : Methods
unfolding load_tcpdrop unload_tracer
tcpdrop_tracer = record {
  string = codes "tcpdrop";
  load = load_tcpdrop;
  start = start_tracer;
  unload = unload_tracer;
}

unfoldable pub readline_tracer : Methods
unfolding load_readline unload_tracer
readline_tracer = record {
  string = codes "bashreadline";
  load = load_readline;
  start = start_tracer;
  unload = unload_tracer;
}

-- A tracer in the map of `NewServer`: its name there, its methods and its object.
pub record Program : Type 0 where
  pub name : Text
  pub methods : Methods
  pub object : Object

-- the loop of `NewServer`: the error is that of the tracer with the name
unfoldable pub load_all : Bcc → List Program → Result (Text × LoadError) (Unit {0}) × List Program
load_all bcc [] = (ok tt, [])
load_all bcc (p ∷ ps) =
    let (r, o) = p.methods.load bcc p.object in
    let (r', ps') = load_all bcc ps in
    elim r [
      | err e ↦ (err (p.name, e), record p { object = o } ∷ ps)
      | ok _ ↦ (r', record p { object = p.methods.start o } ∷ ps')
    ]

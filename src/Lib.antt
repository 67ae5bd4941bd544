-- ===== src/Lib.antt =====
-- A model of bpfd, a daemon that watches system events by bpf programs, filters them by rules, acts on
-- those that match and streams them to clients, with theorems on what its parts do.
--
-- The parts and their files:
-- * rules/rules.go (`Match`, `Validate`, `ValidateTracersAndActions`, `Parse`, `ParseFiles`) is Rules,
--   with theorems in Rules/Match, Rules/Validate, Rules/Table and Rules/Parse. A map is a list of
--   pairs in the order of a range over it, GoMap; a table of rules has the rules of each tracer by name.
-- * api/api.go and api/event.go (`CreateRule`, `RemoveRule`, `addEvent`, `popEvent`) are Api, whose
--   record Server has the fields of `apiServer` that they use. Api/Listing is `ListRules`, with the
--   loop variable as a cell that pointers share, as before Go 1.22. Api/Trace is one iteration of the
--   loop of `LiveTrace`, and Api/Trace/Delivery runs of such steps with those of tracers between them;
--   Progress and Hangup beside it are about streams that go on and streams that end.
--   Api/Loop is one round of the goroutine that `NewServer` starts for each tracer, Api/Loop/Watch the same
--   from what `WatchEvent` does on, its errors and panics included.
-- * The structs of api/grpc/api.pb.go are the records of Grpc.
-- * proc/proc.go is Proc and the modules below it: Runtime and ContainerId (`GetContainerRuntime`,
--   `GetContainerID`), UserNamespace, Status (`getStatusEntry`, `GetUIDGID`, the seccomp mode) and
--   Cmdline. What the operating system answers is the record Host, a parameter of all of them.
-- * tracer/tracer.go is Tracer, with a store of tracer objects for `UnloadAll`. The `WatchEvent` of
--   the five tracers is in Tracer/Open, Tracer/Exec, Tracer/DockerOpenBreakout, Tracer/BashReadline
--   and Tracer/TcpDrop, on the bytes that the kernel sends, which Wire reads. Tracer/Loading is their
--   `Load`, `Start` and `Unload`, and the loop of `NewServer` that calls them.
-- * The C programs in the constants `source` of the five tracers are Bpf and the modules below it:
--   Pairing (an entry and its return, through the table `tmp`), Open, DockerOpenBreakout, Exec,
--   TcpDrop and BashReadline. Their theorems lead from a call in the kernel to the tracer's event.
--   Full is Pairing for a table that may be full, and Threads has the probes of the three programs that
--   pair calls in the tasks in which they fire.
-- * tcp/tcp.go is Tcp, action/ is Action: Action/Effects is what the three actions do to the world,
--   Action/Stdout what a reader makes of the printed lines.
-- * daemon.go is Daemon: `Run` up to the point where it serves. Daemon/Builtin are the `init` functions
--   behind its imports, Daemon/Shutdown the goroutine that waits for a signal.
-- * The running daemon is System: an input of any of its parts is a step on the server, `Reach` are
--   the servers that executions lead to. System/Invariant is what holds of them, System/Panics which inputs
--   end the daemon, System/Actions which actions run, System/Requests the table of rules as an abstract function. System/Kernel leads from a
--   call in the kernel to the actions and System/Dropped from a dropped segment, System/Kill to the
--   processes that are killed, System/Traced from an event to the lines of the trace command.
--   System/Inert is about the rounds of two of the tracers.
-- * create.go and remove.go are Cli, list.go and trace.go Cli/Listing and Cli/Trace: what the
--   commands send and print. main.go and client.go are Cli/Program: the check before a command, the
--   connection, and a command as a sequence of inputs of System.
-- * Strings, Strconv and Regex model what the program uses of Go's standard library; Prelude has the
--   shared notation and lemmas.
-- * Examples applies the theorems at concrete inputs.
--
-- How they interact: a probe of Bpf submits bytes, which the `WatchEvent` of its tracer makes an event
-- of. The event goes through the loop of Api/Loop, which fills in what Proc finds, asks Rules whether
-- the rules of the table match, queues the event by `add_event` for the streams of Api/Trace, and
-- lists the actions that run. `create_rule` and `remove_rule` change the table between rounds; System
-- has all of these as inputs in any order.
--
-- Conventions and bounds: a text is a list of code points, one for each byte where a buffer of the
-- kernel is read. Numbers are natural numbers; where Go's width matters it is written out: fields of
-- a buffer are read at their width, `ParseInt` fails above 64 bits, and the conversion to uint32 wraps.
-- A panic of Go is `none` or a constructor of its own. The print of a number takes its digits on fuel
-- `suc n` for the number `n`, which is enough since a number has no more digits than its successor
-- counts. Parameters: the operating system (Host), `toml.Decode` in Rules, the docker client in
-- Tracer/DockerOpenBreakout, the package capability in Proc/Capabilities, gobpf (Bcc) in
-- Tracer/Loading, finding and signalling a process in Action; in Bpf the current task, the memory
-- that `bpf_probe_read` reads (IsMemory: it fills the buffer that it is given), and the table `tmp`
-- with the laws of one that is never full (HasRoom) or of one that may be (IsLimited); `grpc.Dial` in
-- Cli/Program, and whether the docker client can be made in Daemon/Builtin. IsForeign says of a host
-- that a process is not among the tasks of another one.
--
-- Not modelled: the generated code of api/grpc and its transport, the parsing of flags, the signal
-- that ends the trace command, the alignment of the list, logging, and what a data race does: a step
-- of System is a call, a round of a goroutine or one iteration of a loop and no range over the rules
-- meets a write there. A signal may also come while the daemon starts; Daemon/Shutdown then has the
-- objects made so far.
pub mod Prelude
pub mod Strings
pub mod GoMap
pub mod Regex
pub mod Strconv
pub mod Grpc
pub mod Proc
pub mod Rules
pub mod Wire
pub mod Tcp
pub mod Bpf
pub mod Action
pub mod Tracer
pub mod Api
pub mod Daemon
pub mod System
pub mod Cli
pub mod Examples

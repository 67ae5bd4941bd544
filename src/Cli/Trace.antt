-- ===== src/Cli/Trace.antt =====
-- trace.go: the loop of the trace command, which prints the events of a stream. What `Recv` returns, one call
-- after the other, is a list; the signals that end the process are left out.
use bpfd.Prelude.{
  ◌≡◌, refl, ◌⊎◌, inl, inr, Option-cases, Option, none, some, List, [], ◌∷◌, ◌++◌, map,
  if◌then◌else◌, nat_eq, is_empty, Result, ok, err, Text, text_eq,
}
use bpfd.Grpc.{Event}
use bpfd.Strings.{format_nat}

-- What `stream.Recv` returns.
pub data Received : Type 0 where
  received : Option Event → Received
  end_of_stream : Received
  broken : Text → Received

-- The fields that a line of the log has.
pub record Line : Type 0 where
  pub tracer : Text
  pub pid : Text
  pub tgid : Text
  pub container_runtime : Text
  pub container_id : Text
  pub event_data : List (Text × Text)

-- How far the command got: it waits for `Recv`, or it has ended.
pub data Progress : Type 0 where
  waiting done : Progress
  no_stream receive_failed : Text → Progress
  unconnected : Text → Progress

unfoldable pub to_line : Event → List (Text × Text) → Line
unfolding format_nat
to_line e d = record {
  tracer = e.tracer;
  pid = format_nat e.pid;
  tgid = format_nat e.tgid;
  container_runtime = e.container_runtime;
  container_id = e.container_id;
  event_data = d;
}

-- an event that is nil or has no data is passed over
unfoldable pub line_of : Option Event → List Line
unfolding to_line
line_of none = []
line_of (some e) = elim e.event_data [
  | none ↦ []
  | some d ↦ if is_empty d then [] else to_line e d ∷ []
]

-- `for tracing { … }`
unfoldable pub trace_loop : List Received → List Line × Progress
unfolding line_of
trace_loop [] = ([], waiting)
trace_loop (end_of_stream ∷ rs) = ([], done)
trace_loop (broken x ∷ rs) = ([], receive_failed x)
trace_loop (received e ∷ rs) = let (lines, p) = trace_loop rs in (line_of e ++ lines, p)

-- `Run`: the client, the call of `LiveTrace`, and the loop
unfoldable pub trace_command :
    Result Text (Unit {0}) → Result Text (Unit {0}) → List Received → List Line × Progress
unfolding trace_loop
trace_command client stream rs = elim client [
  | err e ↦ ([], unconnected e)
  | ok _ ↦ elim stream [ err e ↦ ([], no_stream e) | ok _ ↦ trace_loop rs ]
]

-- Which lines stand for a sequence of what `Recv` gives: an event with data has one line, with its fields as
-- they are and its IDs in decimal, and an event that is nil or has no data has none.
pub data Printed : List (Option Event) → List Line → Type 0 where
  nothing : Printed [] []
  passed_nil : {es : List (Option Event)} {ls : List Line} → Printed es ls → Printed (none ∷ es) ls
  passed_over :
      (e : Event) {es : List (Option Event)} {ls : List Line}
      → (e.event_data ≡ none) ⊎ (e.event_data ≡ some [])
      → Printed es ls
      → Printed (some e ∷ es) ls
  printed :
      (e : Event) (entry : Text × Text) (rest : List (Text × Text)) {es : List (Option Event)}
      {ls : List Line}
      → e.event_data ≡ some (entry ∷ rest)
      → Printed es ls
      → Printed (some e ∷ es) (
          record {
            tracer = e.tracer;
            pid = format_nat e.pid;
            tgid = format_nat e.tgid;
            container_runtime = e.container_runtime;
            container_id = e.container_id;
            event_data = entry ∷ rest;
          }
          ∷ ls)

-- the two ways in which a stream stops: at its end, or with an error
abbrev pub stop : Option Text → Received
stop none = end_of_stream
stop (some x) = broken x

abbrev pub stopped : Option Text → Progress
stopped none = done
stopped (some x) = receive_failed x

line_of-Printed :
    (o : Option Event) (es : List (Option Event)) (ls : List Line)
    → Printed es ls
    → Printed (o ∷ es) (line_of o ++ ls)
unfolding line_of to_line
line_of-Printed none es ls p = passed_nil p
line_of-Printed (some e) es ls p = elim (Option-cases e.event_data) [
  | inl n ↦ let q : line_of (some e) ≡ [] = rw (n, line_of) refl in rw q (passed_over e (inl n) p)
  | inr ([], n) ↦
      let q : line_of (some e) ≡ [] = rw (n, line_of) refl in rw q (passed_over e (inr n) p)
  | inr (entry ∷ rest, n) ↦
      let q : line_of (some e) ≡ to_line e (entry ∷ rest) ∷ [] = rw (n, line_of) refl in
      rw q (printed e entry rest n p)
]

-- The command prints one line for each event of the stream that has data, in the order of the stream, with
-- the tracer, the IDs in decimal, the container and the data of the event, and no other line. It ends where
-- the stream stops, whatever would come behind: without an error at the end of the stream, and with the error
-- of `Recv` where that fails.
pub trace_loop-stop :
    (es : List (Option Event)) (failure : Option Text) (rs : List Received)
    → let out = trace_loop (map received es ++ stop failure ∷ rs) in
      Printed es out.0 × (out.1 ≡ stopped failure)
unfolding trace_loop
trace_loop-stop [] none rs = (nothing, refl)
trace_loop-stop [] (some x) rs = (nothing, refl)
trace_loop-stop (e ∷ es) failure rs =
    let (lines, ends) = trace_loop-stop es failure rs in (line_of-Printed e es _ lines, ends)

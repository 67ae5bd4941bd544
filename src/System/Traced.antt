-- ===== src/System/Traced.antt =====
-- From the event of a tracer to the lines that the trace command prints for it: the goroutine of the tracer,
-- the stream of `LiveTrace`, and the loop of trace.go.
use bpfd.Prelude.{
  ℕ, zero, suc, ◌≡◌, refl, sym, ap, ◌∙◌, true, false, some, List, [], ◌∷◌, ◌++◌, map, nat_eq,
  length, replicate, is_empty, In, Text, codes, text_eq,
}
use mathlib.Core.List.{reverse, reverse-append}
use bpfd.Grpc.{Rule, Event}
use bpfd.Proc.{Host}
use bpfd.Api.{Server}
use bpfd.Api.Trace.Delivery.{History, start, run, poll, drain}
use bpfd.Api.Loop.{Performed, handle_event, complete}
use bpfd.Api.Loop.Laws.{matching, queued, respond, rules_of, handle_event_lem}
use bpfd.Cli.Trace.{received, Line, Progress, waiting, to_line, line_of, trace_loop}

-- How often an event is queued: once for each rule that matches, or once if its tracer has no rule.
abbrev pub copies : Event → List (Text × Text) → List (Text × Rule) → ℕ
copies e d [] = 1
copies e d (r ∷ rules) = length (matching e d (r ∷ rules))

replicate-snoc : (n : ℕ) (e : Event) → replicate n e ++ e ∷ [] ≡ e ∷ replicate n e
replicate-snoc zero e = refl
replicate-snoc (suc n) e = ap (λ t. e ∷ t) (replicate-snoc n e)

reverse-replicate : (n : ℕ) (e : Event) → reverse (replicate n e) ≡ replicate n e
reverse-replicate zero e = refl
reverse-replicate (suc n) e =
    reverse-append (e ∷ []) (replicate n e)
    ∙ ap (λ t. t ++ e ∷ []) (reverse-replicate n e)
    ∙ replicate-snoc n e

length-replicate : (n : ℕ) (e : Event) → length (replicate n e) ≡ n
length-replicate zero e = refl
length-replicate (suc n) e = ap suc (length-replicate n e)

respond-queued :
    (e : Event) (d : List (Text × Text)) (rules : List (Text × Rule)) (s : Server)
    → (respond e d rules s).0 ≡ queued (copies e d rules) e s
respond-queued e d [] s = refl
respond-queued e d (r ∷ rules) s = refl

-- the lines of several copies of an event with data
trace_loop-copies :
    (n : ℕ) (e : Event) (d : List (Text × Text))
    → e.event_data ≡ some d
    → is_empty d ≡ false
    → trace_loop (map (λ x. received (some x)) (replicate n e))
      ≡ (replicate n (to_line e d), waiting)
unfolding trace_loop line_of
trace_loop-copies zero e d j k = refl
trace_loop-copies (suc n) e d j k =
    let one : line_of (some e) ≡ to_line e d ∷ [] = rw (j, line_of, k) refl in
    ap (λ (z : List Line × Progress). (line_of (some e) ++ z.0, z.1)) (trace_loop-copies n e d j k)
    ∙ ap (λ (l : List Line). (l ++ replicate n (to_line e d), waiting)) one

complete-data : (h : Host) (p : Text) (e : Event) → (complete h p e).event_data ≡ e.event_data
unfolding complete
complete-data h p e = refl

-- the server with the copies on top of its buffer
abbrev filled : ℕ → Event → Server → Server
filled n e s = record s { events = s.events ++ replicate n e }

queued-filled :
    (n : ℕ) (e : Event) (s : Server) → s.is_streaming ≡ true → queued n e s ≡ filled n e s
queued-filled n e s on = rw on refl

drained :
    (n : ℕ) (e : Event) (s : Server)
    → s.is_streaming ≡ true
    → run (replicate n poll) (start (filled n e s)) ≡ record (start s) { delivered = replicate n e }
drained n e s on =
    ap (λ k. run (replicate k poll) (start (filled n e s))) (sym (length-replicate n e))
    ∙ drain (replicate n e) s.events (start (filled n e s)) on
        (ap (λ t. s.events ++ t) (sym (reverse-replicate n e)))

-- While a client traces, with nothing between: a tracer reports an event with data that are not empty, in a
-- server with the action "stdout". The goroutine queues it once for each rule of the tracer that matches,
-- or once if the tracer has no rule. As many iterations of the stream give the client just these copies,
-- of the completed event, and leave the buffer as it was before; and the trace command prints its line as
-- often. So an event that no rule matches is not traced, and one that two rules match is traced twice.
pub traced-copies :
    (h : Host) (p : Text) (e : Event) (d : List (Text × Text)) (s : Server)
    → s.is_streaming ≡ true
    → In (codes "stdout") s.actions
    → e.event_data ≡ some d
    → is_empty d ≡ false
    → (t : Server) × (done : Performed) × (handle_event h p (some e) s ≡ some (t, done))
      × (run (replicate (copies (complete h p e) d (rules_of p s)) poll) (start t)
          ≡ record (start s) {
            delivered = replicate (copies (complete h p e) d (rules_of p s)) (complete h p e);
          })
      × (trace_loop (
            map
              (λ x. received (some x))
              (run (replicate (copies (complete h p e) d (rules_of p s)) poll) (start t)).delivered)
          ≡ (
            replicate (copies (complete h p e) d (rules_of p s)) (to_line (complete h p e) d),
            waiting,
          ))
traced-copies h p e d s on known has some_data =
    let e' = complete h p e in
    let n = copies e' d (rules_of p s) in
    let out = respond e' d (rules_of p s) s in
    let kept : out.0 ≡ filled n e' s =
      respond-queued e' d (rules_of p s) s ∙ queued-filled n e' s on in
    let polled : run (replicate n poll) (start out.0)
        ≡ record (start s) { delivered = replicate n e' } =
      ap (λ z. run (replicate n poll) (start z)) kept ∙ drained n e' s on in
    (
      out.0,
      out.1,
      handle_event_lem h p e d s known has,
      polled,
      ap (λ (z : History). trace_loop (map (λ x. received (some x)) z.delivered)) polled
          ∙ trace_loop-copies n e' d (complete-data h p e ∙ has) some_data,
    )

-- ===== src/Api/Loop/Readline.antt =====
-- What becomes of the events of the tracer of tracer/bashreadline in the goroutine of api/api.go.
use bpfd.Prelude.{
  ◌≡◌, refl, sym, ap, ◌∙◌, inl, inr, none, some, [], Option-cases, nat_eq, Text, codes, text_eq,
}
use bpfd.Grpc.{Event}
use bpfd.Proc.{Host}
use bpfd.Wire.{strict_string}
use bpfd.Tracer.{returned, panicked, decode_failed}
use bpfd.Tracer.BashReadline.{ReadlineEvent, read_readline_event, to_event, watch_event}
use bpfd.Api.{Server}
use bpfd.Api.Loop.{handle_event}
use bpfd.Api.Loop.Laws.{handle_event_no_data}

to_event-no_data : (e : ReadlineEvent) (c : Text) → (to_event e c).event_data ≡ none
unfolding to_event
to_event-no_data e c = refl

watch_event-no_data :
    (buffer : Text) (e : Event) → watch_event buffer ≡ returned (some e) → e.event_data ≡ none
unfolding watch_event
watch_event-no_data buffer e h = elim (Option-cases (read_readline_event buffer)) [
  | inl n ↦ absurd (let q : watch_event buffer ≡ decode_failed = rw (n, watch_event) refl in cc)
  | inr ((r, rest), i) ↦ elim (Option-cases (strict_string r.comm)) [
    | inl n ↦ absurd (let q : watch_event buffer ≡ panicked = rw (i, watch_event, n) refl in cc)
    | inr (c, j) ↦
        let q : watch_event buffer ≡ returned (some (to_event r c)) = rw (i, watch_event, j) refl in
        let x : some (to_event r c) ≡ some e = cc in
        let y : to_event r c ≡ e = cc in ap (λ v. v.event_data) (sym y) ∙ to_event-no_data r c
  ]
]

-- Whatever bash reads, and whatever rules there are, an event of the tracer "bashreadline" is dropped:
-- no action runs and nothing is queued, since the event has no data.
pub handle_event-watch_event :
    (h : Host) (s : Server) (buffer : Text) (e : Event)
    → watch_event buffer ≡ returned (some e)
    → handle_event h (codes "bashreadline") (some e) s ≡ some (s, [])
handle_event-watch_event h s buffer e w =
    handle_event_no_data h (codes "bashreadline") e s (watch_event-no_data buffer e w)

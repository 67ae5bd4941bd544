-- ===== src/Action/Stdout.antt =====
-- The output of the action of action/stdout: what a reader of its lines gets.
use bpfd.Prelude.{
  ℕ, ◌<◌, ◌≡◌, refl, ap, ◌≢◌, List, [], ◌∷◌, ◌++◌, map, append_assoc, append-nil, arith, nat_eq,
  init, init-append, All, All-append, Text, text_eq,
}
use bpfd.Grpc.{Event}
use bpfd.Strings.{format_nat, tab, newline, split, separated}
use bpfd.Strings.Decimal.{format_nat-AllDigits, AllDigits-Lacks}
use bpfd.Strings.Split.{Lacks, split-append, split-separated}
use bpfd.Action.{stdout_line}

-- The fields of a line behind the first.
abbrev pub later_fields : Event → List Text
later_fields e =
    format_nat e.pid
    ∷ format_nat e.tgid
    ∷ format_nat e.uid
    ∷ format_nat e.gid
    ∷ e.command
    ∷ e.container_runtime
    ∷ e.container_id
    ∷ []

abbrev pub fields : Event → List Text
fields e = e.tracer ∷ later_fields e

-- what several events print
abbrev pub output : List Event → Text
output [] = []
output (e ∷ es) = stdout_line e ++ output es

-- A reader that takes the lines, the last of which is empty, and cuts each at its tabs.
abbrev pub read_output : Text → List (List Text)
read_output s = map (λ l. split l tab) (init (split s newline))

-- A text that does not break a line or a field.
abbrev pub Plain : Text → Type 0
Plain s = Lacks tab s × Lacks newline s

-- The texts of an event that the line has do not break it.
pub record IsPlain (e : Event) : Type 0 where
  pub tracer : Plain e.tracer
  pub command : Plain e.command
  pub runtime : Plain e.container_runtime
  pub id : Plain e.container_id

body : Event → Text
body e = e.tracer ++ separated (later_fields e) (tab ∷ [])

stdout_line-body : (e : Event) (rest : Text) → stdout_line e ++ rest ≡ body e ++ newline ∷ rest
unfolding stdout_line body separated
stdout_line-body e rest = simp (append_assoc, append-nil)

number : (sep n : ℕ) → sep < b'0' → Lacks sep (format_nat n)
number sep n h = AllDigits-Lacks sep (format_nat n) h (format_nat-AllDigits n)

fields-Lacks :
    (sep : ℕ) (e : Event)
    → sep < b'0'
    → Lacks sep e.tracer
    → Lacks sep e.command
    → Lacks sep e.container_runtime
    → Lacks sep e.container_id
    → All (Lacks sep) (fields e)
fields-Lacks sep e h t c r i = (
  t,
  (
    number sep e.pid h,
    (number sep e.tgid h, (number sep e.uid h, (number sep e.gid h, (c, (r, (i, tt)))))),
  ),
)

separated-Lacks :
    (c : ℕ) (ps : List Text) → tab ≢ c → All (Lacks c) ps → Lacks c (separated ps (tab ∷ []))
unfolding separated
separated-Lacks c [] ne h = tt
separated-Lacks c (p ∷ ps) ne (hp, hps) =
    (ne, All-append (λ x. x ≢ c) p (separated ps (tab ∷ [])) hp (separated-Lacks c ps ne hps))

body-Lacks-newline : (e : Event) → IsPlain e → Lacks newline (body e)
unfolding body
body-Lacks-newline e p =
    let (first, later) =
      fields-Lacks newline e (omega arith) p.tracer.1 p.command.1 p.runtime.1 p.id.1 in
    All-append (λ x. x ≢ newline) e.tracer (separated (later_fields e) (tab ∷ [])) first
      (separated-Lacks newline (later_fields e) (λ q. absurd (omega arith)) later)

lines : (es : List Event) → All IsPlain es → split (output es) newline ≡ map body es ++ [] ∷ []
unfolding split
lines [] h = refl
lines (e ∷ es) (p, ps) =
    rw
      (
        stdout_line-body e (output es),
        split-append (body e) (output es) newline (body-Lacks-newline e p),
      )
      (ap (λ t. body e ∷ t) (lines es ps))

split_bodies :
    (es : List Event) → All IsPlain es → map (λ l. split l tab) (map body es) ≡ map fields es
unfolding body
split_bodies [] h = refl
split_bodies (e ∷ es) (p, ps) =
    rw
      (split-separated e.tracer (later_fields e) tab
        (fields-Lacks tab e (omega arith) p.tracer.0 p.command.0 p.runtime.0 p.id.0))
      (ap (λ t. fields e ∷ t) (split_bodies es ps))

-- What the action "stdout" prints for any number of events, one after the other, can be read back: a reader
-- that takes the lines and cuts each at its tabs gets the eight fields of each event, in order, if the
-- tracer, the command, the runtime and the container ID of each hold no tab and no line feed.
pub read_output-output :
    (es : List Event) → All IsPlain es → read_output (output es) ≡ map fields es
read_output-output es h = rw (lines es h, init-append) (split_bodies es h)

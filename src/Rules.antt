-- ===== src/Rules.antt =====
-- rules/rules.go: parsing rule files, validating rules, and matching them against events. The TOML
-- decoder (github.com/BurntSushi/toml) is the parameter `decode`; files are read through `Host`.
pub mod Table
pub mod Validate
pub mod Match
pub mod Parse
use bpfd.Prelude.{
  Bool, true, false, not, ◌&&◌, none, some, List, [], ◌∷◌, ◌++◌, if◌then◌else◌, Eq, ◌==◌, nat_eq,
  is_empty, any, Result, ok, err, ◌>>=◌, Text, codes, text_eq,
}
use bpfd.Strings.{contains, base, trim_suffix}
use bpfd.Grpc.{Rule, Filter}
use bpfd.GoMap.{lookup, insert}
use bpfd.Proc.{Host}
use bpfd.Proc.Runtime.{is_valid_container_runtime}

-- The error values of the package, each with the arguments of its message.
pub data Error : Type 0 where
  empty_name empty_tracer : Error
  invalid_runtime : Text → Text → Error
  invalid_tracer : Text → Text → Error
  invalid_action : Text → Text → Error
  read_failed : Text → Error
  decode_failed : Text → Text → Error
  in_file : Text → Error → Error

-- the rules of each tracer, by name
abbrev pub RuleTable : Type 0
RuleTable = List (Text × List (Text × Rule))

-- `in`
unfoldable pub is_in : List Text → Text → Bool
is_in a s = any (λ b. b == s) a

unfoldable pub check_runtimes : Text → List Text → Result Error (Unit {0})
check_runtimes rule_name [] = ok tt
check_runtimes rule_name (r ∷ rs) =
    if is_valid_container_runtime r
    then check_runtimes rule_name rs
    else err (invalid_runtime rule_name r)

-- `Validate`
unfoldable pub validate : Rule → Result Error (Unit {0})
unfolding check_runtimes
validate rule =
    if is_empty rule.name
    then err empty_name
    else if is_empty rule.tracer
    then err empty_tracer
    else check_runtimes rule.name rule.container_runtimes

unfoldable pub check_actions : Text → List Text → List Text → Result Error (Unit {0})
check_actions rule_name actions [] = ok tt
check_actions rule_name actions (a ∷ rest) =
    if is_in actions a
    then check_actions rule_name actions rest
    else err (invalid_action rule_name a)

-- `ValidateTracersAndActions`
unfoldable pub validate_tracers_and_actions : Rule → List Text → List Text → Result Error (Unit {0})
unfolding check_actions
validate_tracers_and_actions rule tracers actions =
    if is_in tracers rule.tracer
    then check_actions rule.name actions rule.actions
    else err (invalid_tracer rule.name rule.tracer)

-- How the loop over the runtimes of `Match` ends: it returns true, or it leaves `matchedRuntime`.
pub data RuntimeScan : Type 0 where
  returned matched unmatched : RuntimeScan

unfoldable pub scan_runtimes : Bool → Text → List Text → RuntimeScan
scan_runtimes no_filters pid_runtime [] = unmatched
scan_runtimes no_filters pid_runtime (r ∷ rs) =
    if pid_runtime == r
    then (if no_filters then returned else matched)
    else scan_runtimes no_filters pid_runtime rs

-- the loop over the data of the event
unfoldable pub match_data : List (Text × Filter) → List (Text × Text) → Bool
match_data filters [] = false
match_data filters ((key, og_value) ∷ rest) =
    let next = match_data filters rest in
    elim (lookup key filters) [
      | none ↦ next
      | some s ↦ if any (contains og_value) s.values then true else next
    ]

-- what `Match` does behind the loop over the runtimes
unfoldable pub match_rest : Rule → List (Text × Text) → Bool → Bool
unfolding match_data
match_rest rule event_data matched_runtime =
    if not (is_empty rule.container_runtimes) && not matched_runtime
    then false
    else if is_empty rule.filter_events
    then true
    else match_data rule.filter_events event_data

-- `Match`
unfoldable pub matches : Rule → List (Text × Text) → Text → Bool
unfolding scan_runtimes match_rest
matches rule event_data pid_runtime =
    if is_empty rule.container_runtimes && is_empty rule.filter_events
    then true
    else elim (scan_runtimes (is_empty rule.filter_events) pid_runtime rule.container_runtimes) [
      | returned ↦ true
      | matched ↦ match_rest rule event_data true
      | unmatched ↦ match_rest rule event_data false
    ]

-- `_, ok := rules[rule.Tracer]; if !ok { … }` and the assignment behind it, which `ParseFiles` and
-- `CreateRule` share
unfoldable pub add_rule : Rule → RuleTable → RuleTable
add_rule rule table = elim (lookup rule.tracer table) [
  | none ↦ insert rule.tracer ((rule.name, rule) ∷ []) table
  | some rules ↦ insert rule.tracer (insert rule.name rule rules) table
]

abbrev default_name : Text → Rule → Rule
default_name file rule =
    if is_empty rule.name
    then record rule { name = trim_suffix (base file) (codes ".toml") }
    else rule

abbrev checked : Rule → Result Error Rule
checked rule = validate rule >>= λ _. ok rule

module _ (decode : Text → Result Text Rule) (h : Host) where
  -- `Parse`
  unfoldable pub parse : Text → Result Error Rule
  unfolding validate
  parse file = if (h.read file).1 then err (read_failed file) else elim (decode (h.read file).0) [
    | err e ↦ err (decode_failed file e)
    | ok rule ↦ checked (default_name file rule)
  ]

  -- the loop of `ParseFiles`
  unfoldable pub parse_loop :
      List Text → RuleTable → List Text → Result Error (RuleTable × List Text)
  unfolding add_rule
  parse_loop [] rules names = ok (rules, names)
  parse_loop (file ∷ files) rules names = elim (parse file) [
    | err e ↦ err (in_file file e)
    | ok rule ↦ parse_loop files (add_rule rule rules) (names ++ rule.name ∷ [])
  ]

  -- `ParseFiles`
  unfoldable pub parse_files : List Text → Result Error (RuleTable × List Text)
  unfolding parse_loop
  parse_files files = parse_loop files [] []

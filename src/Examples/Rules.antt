-- ===== src/Examples/Rules.antt =====
-- The theorems about rules/rules.go at concrete rules and files.
use bpfd.Prelude.{
  ◌≡◌, refl, ◌↔◌, true, false, none, List, [], ◌∷◌, ◌++◌, map, if◌then◌else◌, ◌==◌, nat_eq, All,
  Result, ok, err, Text, codes, text_beq, text_eq,
}
use bpfd.Grpc.{Rule}
use bpfd.Proc.{Host}
use bpfd.Rules.{
  RuleTable, Error, matches, validate, validate_tracers_and_actions, parse, parse_files, in_file,
  decode_failed,
}
use bpfd.Rules.Match.{matches_iff, RuntimeFits, FilterFits}
use bpfd.Rules.Validate.{IsValid}
use bpfd.Rules.Table.{find_rule, IsSound, IsTable}
use bpfd.Rules.Parse.{Parsed, last_rule, parse_files_ok, parse_files_err}

-- watch the passwords that are opened in docker
abbrev pub passwd : Rule
passwd = record {
  name = codes "passwd";
  tracer = codes "open";
  filter_events = (codes "filename", record { values = codes "passwd" ∷ codes "shadow" ∷ [] }) ∷ [];
  container_runtimes = codes "docker" ∷ [];
  actions = codes "stdout" ∷ [];
}

abbrev pub opened : List (Text × Text)
opened = (codes "filename", codes "/etc/passwd") ∷ []

pub passwd_matched : matches passwd opened (codes "docker") ≡ true
unfolding matches text_beq bpfd.GoMap.lookup bpfd.Strings.contains
passwd_matched = refl

passwd_elsewhere : matches passwd opened (codes "lxc") ≡ false
unfolding matches text_beq
passwd_elsewhere = refl

passwd_other_file :
    matches passwd ((codes "filename", codes "/etc/hosts") ∷ []) (codes "docker") ≡ false
unfolding matches text_beq bpfd.GoMap.lookup bpfd.Strings.contains
passwd_other_file = refl

matches_iff_example :
    (matches passwd opened (codes "docker") ≡ true)
    ↔ (RuntimeFits passwd (codes "docker") × FilterFits passwd opened)
matches_iff_example = matches_iff passwd opened (codes "docker")

passwd_valid : validate passwd ≡ ok tt
unfolding validate bpfd.Proc.Runtime.is_valid_container_runtime text_beq
passwd_valid = refl

abbrev pub tracers : List Text
tracers = codes "exec" ∷ codes "open" ∷ []

abbrev pub actions : List Text
actions = codes "stdout" ∷ codes "kill" ∷ []

passwd_supported : validate_tracers_and_actions passwd tracers actions ≡ ok tt
unfolding validate_tracers_and_actions bpfd.Rules.is_in text_beq
passwd_supported = refl

-- a host whose files each hold their own name
abbrev pub echo_host : Host
echo_host = record {
  is_missing = λ f. false;
  read = λ f. (f, false);
  getenv = λ v. [];
  readlink = λ f. none;
  device = λ f. none;
  get_seccomp_invalid = false;
  set_seccomp_invalid = false;
}

-- a decoder that knows one file
abbrev pub decode : Text → Result Text Rule
decode s = if s == codes "passwd.toml" then ok passwd else err (codes "no rule")

abbrev pub table : RuleTable
table = (codes "open", (codes "passwd", passwd) ∷ []) ∷ []

parsed : parse_files decode echo_host (codes "passwd.toml" ∷ []) ≡ ok (table, codes "passwd" ∷ [])
unfolding parse_files parse text_beq bpfd.Proc.Runtime.is_valid_container_runtime bpfd.GoMap.lookup
    bpfd.GoMap.insert
parsed = refl

parse_files_ok_example :
    (rules : List Rule) × Parsed decode echo_host (codes "passwd.toml" ∷ []) rules
    × All IsValid rules
    × ((codes "passwd" ∷ []) ≡ map (λ r. r.name) rules)
    × ((tracer name : Text) → find_rule table tracer name ≡ last_rule rules tracer name none)
    × IsSound table
    × IsTable table
parse_files_ok_example =
    parse_files_ok decode echo_host (codes "passwd.toml" ∷ []) table (codes "passwd" ∷ []) parsed

abbrev pub two_files : List Text
two_files = codes "passwd.toml" ∷ codes "notes.txt" ∷ []

abbrev pub decode_error : Error
decode_error = in_file (codes "notes.txt") (decode_failed (codes "notes.txt") (codes "no rule"))

failed : parse_files decode echo_host two_files ≡ err decode_error
unfolding parse_files parse text_beq bpfd.Proc.Runtime.is_valid_container_runtime
failed = refl

parse_files_err_example :
    (before : List Text) × (file : Text) × (after : List Text) × (rules : List Rule) × (x : Error)
    × (two_files ≡ before ++ file ∷ after)
    × Parsed decode echo_host before rules
    × (parse decode echo_host file ≡ err x)
    × (decode_error ≡ in_file file x)
parse_files_err_example = parse_files_err decode echo_host two_files decode_error failed

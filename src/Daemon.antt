-- ===== src/Daemon.antt =====
-- daemon.go: what `Run` of the daemon command does before it serves, from the rules files on. The
-- files are those of the rules directory as `filepath.Join` gives them, none if the directory is
-- missing. Logging is left out. Shutdown is the goroutine that waits for a signal, Builtin the tracers and
-- actions that the imports register.
pub mod Checks
pub mod Shutdown
pub mod Builtin
pub mod Laws
use bpfd.Prelude.{
  false, Option, none, some, List, [], ◌∷◌, map, Eq, nat_eq, Result, ok, err, ◌>>=◌, map_err, Text,
  text_eq,
}
use bpfd.Grpc.{Rule}
use bpfd.GoMap.{values}
use bpfd.Proc.{Host}
use bpfd.Rules.{RuleTable, parse_files, validate_tracers_and_actions}
use bpfd.Rules
use bpfd.Action.{ActionError, get_action, list_actions}
use bpfd.Action
use bpfd.Tracer.{Store, RegistryError, get, list}
use bpfd.Tracer
use bpfd.Tracer.Loading.{Bcc, LoadError, Program, Methods, fresh, load_all}
use bpfd.Api.{Server}

pub data StartError : Type 0 where
  listing_failed directory_failed listen_failed : Text → StartError
  rules_failed invalid_rule : Rules.Error → StartError
  tracer_failed : RegistryError → StartError
  action_failed : ActionError → StartError
  load_failed : Text × LoadError → StartError

-- `tracers[p] = prog` for each name: the tracers that `Get` makes
unfoldable pub make_tracers : Tracer.Registered → List Text → Store → Result RegistryError Store
make_tracers registered [] store = ok store
make_tracers registered (p ∷ ps) store =
    let (prog, store') = get p registered store in
    let rest = make_tracers registered ps store' in elim prog [ err e ↦ err e | ok _ ↦ rest ]

-- `actions[a] = acn` for each name
unfoldable pub make_actions : Action.Registered → List Text → Result ActionError (List Text)
make_actions registered [] = ok []
make_actions registered (a ∷ names) =
    let rest = make_actions registered names in
    elim (get_action a registered) [
      | err e ↦ err e
      | ok _ ↦ elim rest [ err e ↦ err e | ok made ↦ ok (a ∷ made) ]
    ]

-- the validation of the rules of one tracer
unfoldable pub check_rules : List Text → List Text → List Rule → Result Rules.Error (Unit {0})
check_rules tracers actions [] = ok tt
check_rules tracers actions (r ∷ rules) =
    validate_tracers_and_actions r tracers actions >>= λ _. check_rules tracers actions rules

-- and of all tracers
unfoldable pub check_table : List Text → List Text → RuleTable → Result Rules.Error (Unit {0})
unfolding check_rules values
check_table tracers actions [] = ok tt
check_table tracers actions ((p, prs) ∷ table) =
    check_rules tracers actions (values prs) >>= λ _. check_table tracers actions table

-- What `Run` asks of the system: the files, or an error of `ReadDir` other than a missing directory;
-- the errors of `MkdirAll`, of `RemoveAll` of the old socket and of `Listen`; and for the loading of
-- the tracers the calls of gobpf, and the methods of the tracer that `Get` makes for a name.
pub record System : Type 0 where
  pub files : Result Text (List Text)
  pub mkdir_error : Option Text
  pub remove_error : Option Text
  pub listen_error : Option Text
  pub bcc : Bcc
  pub methods : Text → Methods

-- `opt.Tracers`: the tracers that `Get` made, in the order of their names, which stands for that of a range
abbrev pub programs : System → List Text → List Program
programs system names =
    map (λ p. record { name = p; methods = system.methods p; object = fresh }) names

abbrev pub fail_with : (Text → StartError) → Option Text → Result StartError (Unit {0})
fail_with f none = ok tt
fail_with f (some e) = err (f e)

-- an error that is logged, after which `Run` goes on
abbrev pub warned : Option Text → Result StartError (Unit {0})
warned none = ok tt
warned (some e) = ok tt

-- the directory of the socket, the old socket, the listener, and the loading of the tracers in `NewServer`
unfoldable pub listen_and_load : System → List Text → Result StartError (Unit {0})
unfolding load_all
listen_and_load system names = do
  _ ← fail_with directory_failed system.mkdir_error
  _ ← warned system.remove_error
  _ ← fail_with listen_failed system.listen_error
  map_err load_failed (load_all system.bcc (programs system names)).0

module _ (decode : Text → Result Text Rule) (h : Host) where
  -- the rules, the tracers, the actions and the validation, in this order
  unfoldable pub prepare :
      Tracer.Registered → Action.Registered → List Text → Result StartError Server
  unfolding parse_files make_tracers make_actions check_table list list_actions
  prepare tracers actions files = do
    (rules, names) ← map_err rules_failed (parse_files decode h files)
    _ ← map_err tracer_failed (make_tracers tracers (list tracers) [])
    made ← map_err action_failed (make_actions actions (list_actions actions))
    _ ← map_err invalid_rule (check_table (list tracers) (list_actions actions) rules)
    ok (record {
      rules = rules;
      actions = made;
      tracer_list = list tracers;
      action_list = list_actions actions;
      is_streaming = false;
      events = [];
    })

  -- `Run` up to `Serve`
  unfoldable pub start : System → Tracer.Registered → Action.Registered → Result StartError Server
  unfolding prepare listen_and_load
  start system tracers actions = do
    files ← map_err listing_failed system.files
    server ← prepare tracers actions files
    _ ← listen_and_load system (list tracers)
    ok server

-- ===== src/Daemon/Laws.antt =====
-- A daemon that starts serves rules that are all valid and supported.
use bpfd.Prelude.{
  ◌≡◌, refl, sym, ap, ◌∙◌, inl, inr, false, List, [], subst, nat_eq, Result, ok, err, map_err,
  >>=-eq-ok, Result-cases, Text, text_eq,
}
use bpfd.Grpc.{Rule}
use bpfd.Proc.{Host}
use bpfd.Rules.{RuleTable, parse_files}
use bpfd.Rules.Parse.{parse_files_ok}
use bpfd.Action
use bpfd.Tracer
use bpfd.Tracer.Loading.{Program, load_all}
use bpfd.Tracer.Loading.Laws.{AreWatching, load_all_cases}
use bpfd.Api.{Server}
use bpfd.Api.Create.{IsConsistent}
use bpfd.Tracer.{Store, list}
use bpfd.Action.{list_actions, get_action}
use bpfd.Daemon.{
  directory_failed, listen_failed, load_failed, fail_with, warned, programs, listen_and_load,
  listing_failed, System, listing_failed, rules_failed, tracer_failed, action_failed, invalid_rule,
  make_tracers, make_actions, check_table, prepare, start,
}
use bpfd.Daemon.Checks.{check_table_sound, find_rule-In, make_actions-names}

module _ (decode : Text → Result Text Rule) (h : Host) where
  abbrev served : Tracer.Registered → Action.Registered → RuleTable → List Text → Server
  served ts acts rules made = record {
    rules = rules;
    actions = made;
    tracer_list = list ts;
    action_list = list_actions acts;
    is_streaming = false;
    events = [];
  }

  served-IsConsistent :
      (ts : Tracer.Registered) (acts : Action.Registered) (files : List Text) (rules : RuleTable)
      (names made : List Text)
      → parse_files decode h files ≡ ok (rules, names)
      → check_table (list ts) (list_actions acts) rules ≡ ok tt
      → IsConsistent (served ts acts rules made)
  served-IsConsistent ts acts files rules names made p c =
      let (rs, ps, v, en, find, sound, table) = parse_files_ok decode h files rules names p in
      record {
        sound = sound;
        supported = λ tracer name r q.
            let (prs, i, j) = find_rule-In rules tracer name r q in
            check_table_sound (list ts) (list_actions acts) rules c tracer prs i r j;
      }

  -- What `prepare` succeeds with: the rules parsed, the tracers and actions made, the table checked.
  prepare_sound :
      (ts : Tracer.Registered) (acts : Action.Registered) (files : List Text) (s : Server)
      → prepare decode h ts acts files ≡ ok s
      → (rules : RuleTable) × (names : List Text) × (made : List Text) × (parse_files decode h files
          ≡ ok (rules, names))
        × (make_actions acts (list_actions acts) ≡ ok made)
        × (check_table (list ts) (list_actions acts) rules ≡ ok tt)
        × (served ts acts rules made ≡ s)
        × ((st : Store) × (make_tracers ts (list ts) [] ≡ ok st))
  unfolding prepare
  prepare_sound ts acts files s q = elim (Result-cases (parse_files decode h files)) [
    | inr (x, p) ↦
        absurd (
          let z : prepare decode h ts acts files ≡ err (rules_failed x) = rw (p, prepare) refl in
          cc)
    | inl ((rules, names), p) ↦ elim (Result-cases (make_tracers ts (list ts) [])) [
      | inr (x, m) ↦ absurd (
          let z : prepare decode h ts acts files ≡ err (tracer_failed x) =
            rw (p, prepare, m) refl in
          cc)
      | inl (st, m) ↦ elim (Result-cases (make_actions acts (list_actions acts))) [
        | inr (x, a) ↦ absurd (
            let z : prepare decode h ts acts files ≡ err (action_failed x) =
              rw (p, prepare, m, a) refl in
            cc)
        | inl (made, a) ↦ elim (Result-cases (check_table (list ts) (list_actions acts) rules)) [
          | inr (x, c) ↦ absurd (
              let z : prepare decode h ts acts files ≡ err (invalid_rule x) =
                rw (p, prepare, m, a, c) refl in
              cc)
          | inl (u, c) ↦
              let z : prepare decode h ts acts files ≡ ok (served ts acts rules made) =
                rw (p, prepare, m, a, c) refl in
              let e : served ts acts rules made ≡ s = cc in
              (rules, names, made, p, a, c, e, (st, m))
        ]
      ]
    ]
  ]

  start-prepare :
      (system : System) (ts : Tracer.Registered) (acts : Action.Registered) (s : Server)
      → start decode h system ts acts ≡ ok s
      → (files : List Text) × (prepare decode h ts acts files ≡ ok s)
        × (listen_and_load system (list ts) ≡ ok tt)
  unfolding start
  start-prepare system ts acts s q = elim (Result-cases system.files) [
    | inr (x, f) ↦
        absurd (
          let z : start decode h system ts acts ≡ err (listing_failed x) = rw (f, start) refl in cc)
    | inl (files, f) ↦ elim (Result-cases (prepare decode h ts acts files)) [
      | inr (x, p) ↦
          absurd (let z : start decode h system ts acts ≡ err x = rw (f, start, p) refl in cc)
      | inl (server, p) ↦ elim (Result-cases (listen_and_load system (list ts))) [
        | inr (x, l) ↦
            absurd (let z : start decode h system ts acts ≡ err x = rw (f, start, p, l) refl in cc)
        | inl (u, l) ↦
            let z : start decode h system ts acts ≡ ok server = rw (f, start, p, l) refl in
            (files, p ∙ sym z ∙ q, l)
      ]
    ]
  ]

  -- The actions of a server that starts are all those that were compiled in.
  pub start-actions :
      (system : System) (ts : Tracer.Registered) (acts : Action.Registered) (s : Server)
      → start decode h system ts acts ≡ ok s
      → (s.actions ≡ list_actions acts) × (s.action_list ≡ list_actions acts)
  start-actions system ts acts s q =
      let (files, p, l) = start-prepare system ts acts s q in
      let (rules, names, made, e, a, c, same, (st, m)) = prepare_sound ts acts files s p in
      (
        ap (λ t. t.actions) (sym same) ∙ make_actions-names acts (list_actions acts) made a,
        ap (λ t. t.action_list) (sym same),
      )

  -- The tracers that a server knows by name are all those that were compiled in, and `Get` made each.
  pub start-tracers :
      (system : System) (ts : Tracer.Registered) (acts : Action.Registered) (s : Server)
      → start decode h system ts acts ≡ ok s
      → (s.tracer_list ≡ list ts) × ((st : Store) × (make_tracers ts (list ts) [] ≡ ok st))
  start-tracers system ts acts s q =
      let (files, p, l) = start-prepare system ts acts s q in
      let (rules, names, made, e, a, c, same, (st, m)) = prepare_sound ts acts files s p in
      (ap (λ t. t.tracer_list) (sym same), (st, m))

  -- A daemon that gets as far as serving has a consistent server: every rule in its table is valid,
  -- stands under its own tracer and name, and has a tracer and actions that the daemon knows; it does
  -- not stream, and no event is queued.
  pub start-IsConsistent :
      (system : System) (ts : Tracer.Registered) (acts : Action.Registered) (s : Server)
      → start decode h system ts acts ≡ ok s
      → IsConsistent s × (s.is_streaming ≡ false) × (s.events ≡ [])
  start-IsConsistent system ts acts s q =
      let (files, p, l) = start-prepare system ts acts s q in
      let (rules, names, made, e, a, c, same, (st, m)) = prepare_sound ts acts files s p in
      (
        subst IsConsistent same (served-IsConsistent ts acts files rules names made e c),
        ap (λ t. t.is_streaming) (sym same),
        ap (λ t. t.events) (sym same),
      )

  listen_and_load-loaded :
      (system : System) (names : List Text)
      → listen_and_load system names ≡ ok tt
      → (load_all system.bcc (programs system names)).0 ≡ ok tt
  unfolding listen_and_load
  listen_and_load-loaded system names q =
      let (u, v, w) = >>=-eq-ok (fail_with directory_failed system.mkdir_error) _ q in
      let (r, r', w') = >>=-eq-ok (warned system.remove_error) _ w in
      let (x, y, z) = >>=-eq-ok (fail_with listen_failed system.listen_error) _ w' in
      elim (Result-cases (load_all system.bcc (programs system names)).0) [
        | inl (a, b) ↦ b
        | inr (e, b) ↦ absurd (
            let c : map_err load_failed (load_all system.bcc (programs system names)).0 ≡ ok tt =
              z in
            cc (rw b at c))
      ]

  -- A daemon that gets as far as serving has loaded and started all of its tracers.
  pub start-AreWatching :
      (system : System) (ts : Tracer.Registered) (acts : Action.Registered) (s : Server)
      → start decode h system ts acts ≡ ok s
      → (qs : List Program) × (load_all system.bcc (programs system (list ts)) ≡ (ok tt, qs))
        × AreWatching system.bcc (programs system (list ts)) qs
  start-AreWatching system ts acts s q =
      let (files, p, ready) = start-prepare system ts acts s q in
      let l = listen_and_load-loaded system (list ts) ready in
      elim (load_all_cases system.bcc (programs system (list ts))) [
        | inl w ↦ w
        | inr (before, p, rest, qs, e, a, b, c, d) ↦ absurd (cc (l, ap (λ z. z.0) d))
      ]

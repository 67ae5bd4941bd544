-- ===== src/Rules/Parse.antt =====
-- What `Parse` and `ParseFiles` return, for any TOML decoder.
use bpfd.Prelude.{
  ◌≡◌, refl, ap, ◌∙◌, inl, inr, ◌&&◌, Option, none, some, List, [], ◌∷◌, ◌++◌, map, append_assoc,
  append-nil, arith, subst, if◌then◌else◌, nat_eq, All, Result, ok, err, >>=-eq-ok, Result-cases,
  Text, text_beq, text_eq,
}
use bpfd.Grpc.{Rule}
use bpfd.GoMap.{lookup}
use bpfd.Proc.{Host}
use bpfd.Rules.{
  RuleTable, Error, in_file, add_rule, validate, checked, default_name, parse, parse_loop,
  parse_files,
}
use bpfd.Rules.Table.{
  find_rule, find_rule-add_rule, IsSound, IsTable, add_rule-IsSound, add_rule-IsTable, IsSound-nil,
}
use bpfd.Rules.Validate.{IsValid, validate_iff}

-- The last rule of the list with that tracer and name.
abbrev pub last_rule : List Rule → Text → Text → Option Rule → Option Rule
last_rule [] tracer name before = before
last_rule (r ∷ rs) tracer name before =
    last_rule rs tracer name
      (if text_beq r.tracer tracer && text_beq r.name name then some r else before)

abbrev add_all : List Rule → RuleTable → RuleTable
add_all [] t = t
add_all (r ∷ rs) t = add_all rs (add_rule r t)

find_rule-add_all :
    (rs : List Rule) (t : RuleTable) (tracer name : Text)
    → find_rule (add_all rs t) tracer name ≡ last_rule rs tracer name (find_rule t tracer name)
find_rule-add_all [] t tracer name = refl
find_rule-add_all (r ∷ rs) t tracer name =
    find_rule-add_all rs (add_rule r t) tracer name
    ∙ ap (last_rule rs tracer name) (find_rule-add_rule r t tracer name)

add_all-IsSound :
    (rs : List Rule) (t : RuleTable) → All IsValid rs → IsSound t → IsSound (add_all rs t)
add_all-IsSound [] t v s = s
add_all-IsSound (r ∷ rs) t (vr, v) s =
    add_all-IsSound rs (add_rule r t) v (add_rule-IsSound r t vr s)

add_all-IsTable : (rs : List Rule) (t : RuleTable) → IsTable t → IsTable (add_all rs t)
add_all-IsTable [] t s = s
add_all-IsTable (r ∷ rs) t s = add_all-IsTable rs (add_rule r t) (add_rule-IsTable r t s)

checked_sound : (r q : Rule) → checked r ≡ ok q → IsValid q
checked_sound r q h =
    let (u, v, e) = >>=-eq-ok (validate r) (λ _. ok r) h in
    subst IsValid (let p : r ≡ q = cc in p) ((validate_iff r).0 v)

module _ (decode : Text → Result Text Rule) (h : Host) where
  -- the rules that the files parse to, one for each file
  abbrev pub Parsed : List Text → List Rule → Type 0
  Parsed [] [] = Unit
  Parsed [] (r ∷ rs) = ⊥
  Parsed (f ∷ fs) [] = ⊥
  Parsed (f ∷ fs) (r ∷ rs) = (parse decode h f ≡ ok r) × Parsed fs rs

  -- A rule that `Parse` returns is valid.
  pub parse-IsValid : (file : Text) (r : Rule) → parse decode h file ≡ ok r → IsValid r
  unfolding parse
  parse-IsValid file r e = elim (Result-cases (decode (h.read file).0)) [
    | inl (q, d) ↦ checked_sound (default_name file q) r (ground arith)
    | inr (x, d) ↦ absurd (ground arith)
  ]

  Parsed-IsValid : (files : List Text) (rules : List Rule) → Parsed files rules → All IsValid rules
  Parsed-IsValid [] [] p = tt
  Parsed-IsValid [] (r ∷ rs) p = absurd p
  Parsed-IsValid (f ∷ fs) [] p = tt
  Parsed-IsValid (f ∷ fs) (r ∷ rs) (e, p) = (parse-IsValid f r e, Parsed-IsValid fs rs p)

  loop_ok :
      (files : List Text) (t0 t : RuleTable) (n0 names : List Text)
      → parse_loop decode h files t0 n0 ≡ ok (t, names)
      → (rules : List Rule) × Parsed files rules
        × (names ≡ n0 ++ map (λ r. r.name) rules)
        × (t ≡ add_all rules t0)
  unfolding parse_loop
  loop_ok [] t0 t n0 names e = ([], tt, rw append-nil (cc), cc)
  loop_ok (f ∷ fs) t0 t n0 names e = elim (Result-cases (parse decode h f)) [
    | inl (r, p) ↦
        let (rs, ps, en, et) =
          loop_ok fs (add_rule r t0) t (n0 ++ r.name ∷ []) names (ground arith) in
        (r ∷ rs, (p, ps), en ∙ append_assoc n0 (r.name ∷ []) (map (λ r. r.name) rs), et)
    | inr (x, p) ↦ absurd (ground arith)
  ]

  -- When `ParseFiles` returns no error, every file was parsed to a valid rule; the names are those of
  -- the rules in the order of the files; under each tracer and name the table holds the rule of the
  -- last file with them, and nothing else; and no key stands twice in it.
  pub parse_files_ok :
      (files : List Text) (t : RuleTable) (names : List Text)
      → parse_files decode h files ≡ ok (t, names)
      → (rules : List Rule) × Parsed files rules
        × All IsValid rules
        × (names ≡ map (λ r. r.name) rules)
        × ((tracer name : Text) → find_rule t tracer name ≡ last_rule rules tracer name none)
        × IsSound t
        × IsTable t
  unfolding parse_files find_rule lookup
  parse_files_ok files t names e =
      let (rs, ps, en, et) = loop_ok files [] t [] names e in
      let v = Parsed-IsValid files rs ps in
      (
        rs,
        ps,
        v,
        en,
        λ tracer name. rw et (find_rule-add_all rs [] tracer name),
        rw et (add_all-IsSound rs [] v IsSound-nil),
        rw et (add_all-IsTable rs [] (record { outer = tt; inner = tt })),
      )

  loop_err :
      (files : List Text) (t0 : RuleTable) (n0 : List Text) (e : Error)
      → parse_loop decode h files t0 n0 ≡ err e
      → (before : List Text) × (file : Text) × (after : List Text) × (rules : List Rule)
        × (x : Error) × (files ≡ before ++ file ∷ after)
        × Parsed before rules
        × (parse decode h file ≡ err x)
        × (e ≡ in_file file x)
  unfolding parse_loop
  loop_err [] t0 n0 e q = absurd (cc q)
  loop_err (f ∷ fs) t0 n0 e q = elim (Result-cases (parse decode h f)) [
    | inl (r, p) ↦
        let (pre, file, post, rs, x, ef, ps, px, ex) =
          loop_err fs (add_rule r t0) (n0 ++ r.name ∷ []) e (ground arith) in
        (f ∷ pre, file, post, r ∷ rs, x, ap (λ l. f ∷ l) ef, (p, ps), px, ex)
    | inr (x, p) ↦ ([], f, fs, [], x, refl, tt, p, ground arith)
  ]

  -- When `ParseFiles` returns an error, it is that of the first file that does not parse, wrapped with
  -- the name of the file; every file before it parses.
  pub parse_files_err :
      (files : List Text) (e : Error)
      → parse_files decode h files ≡ err e
      → (before : List Text) × (file : Text) × (after : List Text) × (rules : List Rule)
        × (x : Error) × (files ≡ before ++ file ∷ after)
        × Parsed before rules
        × (parse decode h file ≡ err x)
        × (e ≡ in_file file x)
  unfolding parse_files
  parse_files_err files e q = loop_err files [] [] e q

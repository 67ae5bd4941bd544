-- ===== src/Tracer/Loading/Laws.antt =====
-- What loading leaves behind, and what unloading undoes.
use bpfd.Prelude.{
  ◌≡◌, refl, ap, ◌∙◌, ◌↔◌, ◌⊎◌, inl, inr, Bool, true, false, Option, none, some, List, [], ◌∷◌,
  ◌++◌, arith, Option-cases, nat_eq, ok, err, Result-cases, Text, codes, text_eq,
}
use bpfd.Tracer.Loading.{
  Bcc, Object, fresh, LoadError, Loaded, check, init_map, load_kprobes, load_readline, start_tracer,
  unload_tracer, Methods, open_tracer, exec_tracer, breakout_tracer, tcpdrop_tracer,
  readline_tracer, Program, load_all, new_module, on_module, attach,
}

-- Nothing of the tracer is left in the kernel.
pub record IsUnloaded (o : Object) : Type 0 where
  pub closed : o.module_open ≡ false
  pub detached : o.attached ≡ []
  pub stopped : o.running ≡ false

-- What `Load` may leave: the module is open, or there is none and nothing is attached; the perf map is there
-- exactly if it succeeded; nothing runs yet.
pub record IsOpened (r : Loaded) : Type 0 where
  pub opened :
      (r.1.module_open ≡ true)
      ⊎ ((r.1.module_open ≡ false) × (r.1.attached ≡ []) × (r.1.perf_map ≡ false))
  pub mapped : (r.0 ≡ ok tt) ↔ (r.1.perf_map ≡ true)
  pub idle : r.1.running ≡ false

init_map-IsOpened :
    (bcc : Bcc) (o : Object) → o.module_open ≡ true → o.running ≡ false → IsOpened (init_map bcc o)
unfolding init_map
init_map-IsOpened bcc o m r = elim (Option-cases bcc.init_perf_map) [
  | inl n ↦ rw n (record { opened = inl m; mapped = (λ q. refl, λ q. refl); idle = r })
  | inr (e, s) ↦ rw s (record { opened = inl m; mapped = (λ q. cc, λ q. cc); idle = r })
]

check-IsOpened :
    (x : Option Text) (failed : Text → LoadError) (o : Object) (rest : Loaded)
    → o.module_open ≡ true
    → o.perf_map ≡ false
    → o.running ≡ false
    → IsOpened rest
    → IsOpened (check x failed o rest)
check-IsOpened (some e) failed o rest m p r h = record {
  opened = inl m;
  mapped = (λ q. cc, λ q. absurd (cc (p, q)));
  idle = r;
}
check-IsOpened none failed o rest m p r h = h

on_module-IsOpened :
    (b : Bool) (rest : Loaded)
    → (b ≡ true → IsOpened rest)
    → IsOpened (on_module (record fresh { module_open = b }) rest)
on_module-IsOpened true rest h = h refl
on_module-IsOpened false rest h = record {
  opened = inr (refl, refl, refl);
  mapped = (λ q. cc, λ q. cc);
  idle = refl;
}

load_kprobes-IsOpened :
    (source entry return fn : Text) (bcc : Bcc)
    → IsOpened (load_kprobes source entry return fn bcc fresh)
unfolding load_kprobes
load_kprobes-IsOpened source entry return fn bcc = on_module-IsOpened (bcc.compiles source) _ (λ m.
    check-IsOpened (bcc.load_kprobe entry) _ _ _ m refl refl (
      check-IsOpened (bcc.attach_kprobe fn) _ _ _ m refl refl (
        check-IsOpened (bcc.load_kprobe return) _ _ _ m refl refl (
          check-IsOpened (bcc.attach_kretprobe fn) _ _ _ m refl refl
            (init_map-IsOpened bcc (attach fn (attach fn (new_module bcc source fresh))) m refl)))))

load_readline-IsOpened : (bcc : Bcc) → IsOpened (load_readline bcc fresh)
unfolding load_readline
load_readline-IsOpened bcc = on_module-IsOpened (bcc.compiles (codes "bashreadline")) _ (λ m.
    check-IsOpened (bcc.load_uprobe (codes "get_return_value")) _ _ _ m refl refl (
      check-IsOpened (bcc.attach_uretprobe (codes "/bin/bash") (codes "readline")) _ _ _ m refl refl
        (init_map-IsOpened bcc
          (attach (codes "readline") (new_module bcc (codes "bashreadline") fresh)) m refl)))

-- The five tracers.
pub data Kind : Type 0 where
  sys_open sys_execve docker_open tcp_drop bash_readline : Kind

abbrev pub methods_of : Kind → Methods
methods_of sys_open = open_tracer
methods_of sys_execve = exec_tracer
methods_of docker_open = breakout_tracer
methods_of tcp_drop = tcpdrop_tracer
methods_of bash_readline = readline_tracer

methods_of-IsOpened : (k : Kind) (bcc : Bcc) → IsOpened ((methods_of k).load bcc fresh)
unfolding open_tracer exec_tracer breakout_tracer tcpdrop_tracer readline_tracer
methods_of-IsOpened sys_open bcc = load_kprobes-IsOpened _ _ _ _ bcc
methods_of-IsOpened sys_execve bcc = load_kprobes-IsOpened _ _ _ _ bcc
methods_of-IsOpened docker_open bcc = load_kprobes-IsOpened _ _ _ _ bcc
methods_of-IsOpened tcp_drop bcc = load_kprobes-IsOpened _ _ _ _ bcc
methods_of-IsOpened bash_readline bcc = load_readline-IsOpened bcc

closed-IsUnloaded :
    (o : Object) → o.module_open ≡ true → o.running ≡ false → IsUnloaded (unload_tracer o)
unfolding unload_tracer
closed-IsUnloaded o m r = record {
  closed = ground arith;
  detached = ground arith;
  stopped = ground arith;
}

unopened-IsUnloaded :
    (o : Object)
    → o.module_open ≡ false
    → o.attached ≡ []
    → o.running ≡ false
    → IsUnloaded (unload_tracer o)
unfolding unload_tracer
unopened-IsUnloaded o m a r = record {
  closed = ground arith;
  detached = ground arith;
  stopped = ground arith;
}

running-IsUnloaded :
    (o : Object)
    → o.module_open ≡ true
    → o.perf_map ≡ true
    → IsUnloaded (unload_tracer (start_tracer o))
unfolding unload_tracer
running-IsUnloaded o m p = record {
  closed = ground arith;
  detached = ground arith;
  stopped = ground arith;
}

-- what `NewServer` does behind `Load`
abbrev pub then_start : Methods → Loaded → Object
then_start m (ok _, o) = m.start o
then_start m (err _, o) = o

begun-IsUnloaded : (r : Loaded) → IsOpened r → IsUnloaded (unload_tracer (then_start open_tracer r))
unfolding open_tracer
begun-IsUnloaded (ok u, o) h = elim h.opened [
  | inl m ↦ running-IsUnloaded o m (h.mapped.0 refl)
  | inr (m, a, p) ↦ absurd (let q = h.mapped.0 refl in cc)
]
begun-IsUnloaded (err e, o) h = elim h.opened [
  | inl m ↦ closed-IsUnloaded o m h.idle
  | inr (m, a, p) ↦ unopened-IsUnloaded o m a h.idle
]

then_start-IsUnloaded :
    (k : Kind) (r : Loaded)
    → IsOpened r
    → IsUnloaded ((methods_of k).unload (then_start (methods_of k) r))
unfolding open_tracer exec_tracer breakout_tracer tcpdrop_tracer readline_tracer
then_start-IsUnloaded sys_open r h = begun-IsUnloaded r h
then_start-IsUnloaded sys_execve r h = begun-IsUnloaded r h
then_start-IsUnloaded docker_open r h = begun-IsUnloaded r h
then_start-IsUnloaded tcp_drop r h = begun-IsUnloaded r h
then_start-IsUnloaded bash_readline r h = begun-IsUnloaded r h

-- Whichever of the calls of gobpf fails, and for each of the five tracers, `Unload` undoes a `Load`: one whose
-- module did not compile, so that it panics, one that failed, be it with its first probe attached, and one that
-- succeeded and was followed by `Start`. The perf map is stopped then, the module closed, and no probe is left
-- attached.
pub unload-load :
    (k : Kind) (bcc : Bcc)
    → IsUnloaded ((methods_of k).unload (then_start (methods_of k) ((methods_of k).load bcc fresh)))
unload-load k bcc =
    then_start-IsUnloaded k ((methods_of k).load bcc fresh) (methods_of-IsOpened k bcc)

abbrev pub watching : Bcc → Program → Program
watching bcc p = record p { object = p.methods.start (p.methods.load bcc p.object).1 }

-- a tracer that was loaded and started
abbrev pub IsWatching : Bcc → Program → Program → Type 0
IsWatching bcc p q = ((p.methods.load bcc p.object).0 ≡ ok tt) × (q ≡ watching bcc p)

abbrev pub AreWatching : Bcc → List Program → List Program → Type 0
AreWatching bcc [] [] = Unit
AreWatching bcc [] (q ∷ qs) = ⊥
AreWatching bcc (p ∷ ps) [] = ⊥
AreWatching bcc (p ∷ ps) (q ∷ qs) = IsWatching bcc p q × AreWatching bcc ps qs

load_all-ok :
    (bcc : Bcc) (p : Program) (ps : List Program)
    → (p.methods.load bcc p.object).0 ≡ ok tt
    → load_all bcc (p ∷ ps) ≡ ((load_all bcc ps).0, watching bcc p ∷ (load_all bcc ps).1)
unfolding load_all
load_all-ok bcc p ps h = rw (h, load_all) refl

load_all-err :
    (bcc : Bcc) (p : Program) (ps : List Program) (e : LoadError)
    → (p.methods.load bcc p.object).0 ≡ err e
    → load_all bcc (p ∷ ps)
      ≡ (err (p.name, e), record p { object = (p.methods.load bcc p.object).1 } ∷ ps)
unfolding load_all
load_all-err bcc p ps e h = rw (h, load_all) refl

-- `NewServer` loads and starts the tracers one after the other. If all of them load, each is watching in the
-- end. Otherwise the first that fails is the one that the error names, where it does not panic for want of a module; those before it are left loaded and
-- running, it is left as its `Load` left it, and those behind it were never touched.
pub load_all_cases :
    (bcc : Bcc) (ps : List Program)
    → ((qs : List Program) × (load_all bcc ps ≡ (ok tt, qs)) × AreWatching bcc ps qs)
      ⊎ ((before : List Program) × (p : Program) × (rest : List Program) × (qs : List Program)
          × (e : LoadError) × (ps ≡ before ++ p ∷ rest)
          × AreWatching bcc before qs
          × ((p.methods.load bcc p.object).0 ≡ err e)
          × (load_all bcc ps ≡ (
            err (p.name, e),
            qs ++ record p { object = (p.methods.load bcc p.object).1 } ∷ rest,
          )))
unfolding load_all
load_all_cases bcc [] = inl ([], refl, tt)
load_all_cases bcc (p ∷ ps) = elim (Result-cases (p.methods.load bcc p.object).0) [
  | inr (e, h) ↦ inr ([], p, ps, [], e, refl, tt, h, load_all-err bcc p ps e h)
  | inl (u, h) ↦ elim (load_all_cases bcc ps) [
    | inl (qs, q, w) ↦ inl (watching bcc p ∷ qs, load_all-ok bcc p ps h ∙ rw q refl, ((h, refl), w))
    | inr (before, p', rest, qs, e, s, w, f, q) ↦ inr (
      p ∷ before,
      p',
      rest,
      watching bcc p ∷ qs,
      e,
      ap (λ l. p ∷ l) s,
      ((h, refl), w),
      f,
      load_all-ok bcc p ps h ∙ rw q refl,
    )
  ]
]

-- ===== src/Examples/Loading.antt =====
-- The theorems about the loading of the tracers where a call of gobpf fails.
use bpfd.Prelude.{
  ◌≡◌, refl, ◌⊎◌, true, false, none, some, List, [], ◌∷◌, ◌++◌, if◌then◌else◌, ◌==◌, nat_eq, ok,
  err, codes, text_beq, text_eq,
}
use bpfd.Tracer.Loading.{
  Bcc, fresh, LoadError, attach_return_failed, load_exec, open_tracer, exec_tracer, Program,
  load_all,
}
use bpfd.Tracer.Loading.Laws.{
  IsUnloaded, sys_execve, methods_of, then_start, unload-load, AreWatching, load_all_cases,
}

-- a kernel that has no probe at the return of execve
abbrev bcc : Bcc
bcc = record {
  compiles = λ p. true;
  load_kprobe = λ p. none;
  attach_kprobe = λ f. none;
  attach_kretprobe = λ f. if f == codes "sys_execve" then some (codes "no such function") else none;
  load_uprobe = λ p. none;
  attach_uretprobe = λ p s. none;
  init_perf_map = none;
  get_syscall_fn_name = λ n. codes "sys_" ++ n;
}

half_loaded : load_exec bcc fresh ≡ (
  err (attach_return_failed (codes "no such function")),
  record {
    module_open = true;
    attached = codes "sys_execve" ∷ [];
    perf_map = false;
    running = false;
  },
)
unfolding load_exec text_beq
half_loaded = refl

unload-load_example : IsUnloaded (
    (methods_of sys_execve).unload
      (then_start (methods_of sys_execve) ((methods_of sys_execve).load bcc fresh)))
unload-load_example = unload-load sys_execve bcc

abbrev programs : List Program
programs =
    record { name = codes "open"; methods = open_tracer; object = fresh }
    ∷ record { name = codes "exec"; methods = exec_tracer; object = fresh }
    ∷ []

load_all_cases_example :
    ((qs : List Program) × (load_all bcc programs ≡ (ok tt, qs)) × AreWatching bcc programs qs)
    ⊎ ((before : List Program) × (p : Program) × (rest : List Program) × (qs : List Program)
        × (e : LoadError) × (programs ≡ before ++ p ∷ rest)
        × AreWatching bcc before qs
        × ((p.methods.load bcc p.object).0 ≡ err e)
        × (load_all bcc programs ≡ (
          err (p.name, e),
          qs ++ record p { object = (p.methods.load bcc p.object).1 } ∷ rest,
        )))
load_all_cases_example = load_all_cases bcc programs

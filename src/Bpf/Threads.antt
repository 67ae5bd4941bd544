-- ===== src/Bpf/Threads.antt =====
-- The probes of tracer/open, tracer/dockeropenbreakout and tracer/tcpdrop as the kernel fires them, each in
-- a task: the programs save under `bpf_get_current_pid_tgid`, and so keep the threads apart.
use bpfd.Prelude.{
  ℕ, ◌≡◌, refl, sym, ◌∙◌, Bool, ◌&&◌, Option, none, some, List, [], ◌∷◌, map, arith, nat_beq,
  if◌then◌else◌, nat_eq, text_eq,
}
use bpfd.Bpf.{Task, IsTask, pid_tgid, Memory, HashTable, HasRoom}
use bpfd.Bpf.Pairing.{Probe, enter, leave, tag, save, submitted, calls, of_thread, submitted-calls}
use bpfd.Bpf.Pairing
use bpfd.Bpf.Full.{IsLimited, Some, submitted-Some}
use bpfd.Bpf.Open.{OpenData}
use bpfd.Bpf.Open
use bpfd.Bpf.DockerOpenBreakout.{breakout_entry, breakout_return}
use bpfd.Bpf.TcpDrop.{TcpData, Packet}
use bpfd.Bpf.TcpDrop

-- A probe that fires in a task: at the entry with the arguments of the kernel function, at the return with the
-- register of the return value.
pub data TaskProbe (X : Type 0) : Type 0 where
  enters : Task → X → TaskProbe X
  leaves : Task → ℕ → TaskProbe X

abbrev pub AreTasks : {X : Type 0} → List (TaskProbe X) → Type 0
AreTasks [] = Unit {0}
AreTasks (enters t x ∷ ps) = IsTask t × AreTasks ps
AreTasks (leaves t rc ∷ ps) = IsTask t × AreTasks ps

-- Two tasks are one thread if they are of the same process and have the same thread ID.
abbrev pub same_thread : Task → Task → Bool
same_thread t u = nat_beq t.pid u.pid && nat_beq t.thread u.thread

abbrev pub emit : {B : Type 0} → Task → Option B → List (Task × B) → List (Task × B)
emit t none rest = rest
emit t (some b) rest = (t, b) ∷ rest

module _ {A B X : Type 0} (tmp : HashTable A) (entry : Task → X → tmp.Table → tmp.Table)
    (return : Task → ℕ → tmp.Table → tmp.Table × Option B) where
  -- What a program with these two functions submits, each with the task of its return.
  abbrev pub outputs : List (TaskProbe X) → tmp.Table → List (Task × B)
  outputs [] m = []
  outputs (enters t x ∷ ps) m = outputs ps (entry t x m)
  outputs (leaves t rc ∷ ps) m = emit t (return t rc m).1 (outputs ps (return t rc m).0)

-- what of it is submitted by a thread
abbrev pub of_task : {B : Type 0} → Task → List (Task × B) → List B
of_task u [] = []
of_task u ((t, b) ∷ out) = let rest = of_task u out in if same_thread t u then b ∷ rest else rest

-- What a thread should see of its own probes: a return gives the data of its latest entry, once, with the
-- return value, and nothing if there was none.
abbrev pub own_calls :
    {A B X : Type 0} → (Task → X → A) → (A → ℕ → B) → Task → List (TaskProbe X) → Option A → List B
own_calls gather fill u [] pending = []
own_calls gather fill u (enters t x ∷ ps) pending =
    own_calls gather fill u ps (if same_thread t u then some (gather t x) else pending)
own_calls gather fill u (leaves t rc ∷ ps) none = own_calls gather fill u ps none
own_calls gather fill u (leaves t rc ∷ ps) (some a) =
    let done = own_calls gather fill u ps none in
    let other = own_calls gather fill u ps (some a) in
    if same_thread t u then fill a rc ∷ done else other

-- the keys of the table tell threads apart
pid_tgid-same_thread :
    (t u : Task) → IsTask t → IsTask u → nat_beq (pid_tgid t) (pid_tgid u) ≡ same_thread t u
pid_tgid-same_thread t u v w = let a = v.thread in let b = w.thread in ground arith

to_probe : {A X : Type 0} → (Task → X → A) → TaskProbe X → Probe A
to_probe gather (enters t x) = enter (pid_tgid t) (gather t x)
to_probe gather (leaves t rc) = leave (pid_tgid t) rc

own_calls-calls :
    {A B X : Type 0} (gather : Task → X → A) (fill : A → ℕ → B) (u : Task) (ps : List (TaskProbe X))
    (o : Option A)
    → IsTask u
    → AreTasks ps
    → calls fill (pid_tgid u) (map (to_probe gather) ps) o ≡ own_calls gather fill u ps o
unfolding to_probe
own_calls-calls gather fill u [] o w vs = refl
own_calls-calls gather fill u (enters t x ∷ ps) o w (v, vs) =
    rw (pid_tgid-same_thread t u v w) (own_calls-calls gather fill u ps _ w vs)
own_calls-calls gather fill u (leaves t rc ∷ ps) none w (v, vs) =
    own_calls-calls gather fill u ps none w vs
own_calls-calls gather fill u (leaves t rc ∷ ps) (some a) w (v, vs) =
    rw
      (
        pid_tgid-same_thread t u v w,
        own_calls-calls gather fill u ps none w vs,
        own_calls-calls gather fill u ps (some a) w vs,
      )
      refl

module _ {A B X : Type 0} (tmp : HashTable A) (gather : Task → X → A) (fill : A → ℕ → B)
    (entry : Task → X → tmp.Table → tmp.Table)
    (return : Task → ℕ → tmp.Table → tmp.Table × Option B)
    (saves : (t : Task) (x : X) (m : tmp.Table)
      → entry t x m ≡ save tmp fill (pid_tgid t) (gather t x) m)
    (returns : (t : Task) (rc : ℕ) (m : tmp.Table)
      → return t rc m ≡ Pairing.trace_return tmp fill (pid_tgid t) rc m) where
  of_task-emit :
      (u t : Task) (o : Option B) (out : List (Task × B)) (ids : List (ℕ × B))
      → IsTask u
      → IsTask t
      → of_task u out ≡ of_thread (pid_tgid u) ids
      → of_task u (emit t o out) ≡ of_thread (pid_tgid u) (tag (pid_tgid t) o ids)
  of_task-emit u t none out ids w v e = e
  of_task-emit u t (some b) out ids w v e = rw (pid_tgid-same_thread t u v w, e) refl

  of_task-outputs :
      (u : Task) (ps : List (TaskProbe X)) (m : tmp.Table)
      → IsTask u
      → AreTasks ps
      → of_task u (outputs tmp entry return ps m)
        ≡ of_thread (pid_tgid u) (submitted tmp fill (map (to_probe gather) ps) m)
  unfolding to_probe
  of_task-outputs u [] m w vs = refl
  of_task-outputs u (enters t x ∷ ps) m w (v, vs) = rw (saves t x m) (of_task-outputs u ps _ w vs)
  of_task-outputs u (leaves t rc ∷ ps) m w (v, vs) = rw (returns t rc m) (
      of_task-emit u t _ _ _ w v
        (of_task-outputs u ps (Pairing.trace_return tmp fill (pid_tgid t) rc m).0 w vs))

  outputs-own_calls :
      HasRoom tmp
      → (u : Task) (ps : List (TaskProbe X)) → IsTask u
      → AreTasks ps
      → of_task u (outputs tmp entry return ps tmp.empty) ≡ own_calls gather fill u ps none
  outputs-own_calls room u ps w vs =
      of_task-outputs u ps tmp.empty w vs
      ∙ submitted-calls tmp fill room (pid_tgid u) (map (to_probe gather) ps)
      ∙ own_calls-calls gather fill u ps none w vs

  outputs-Some :
      IsLimited tmp
      → (u : Task) (ps : List (TaskProbe X)) → IsTask u
      → AreTasks ps
      → Some (of_task u (outputs tmp entry return ps tmp.empty)) (own_calls gather fill u ps none)
  outputs-Some limited u ps w vs =
      rw (of_task-outputs u ps tmp.empty w vs, sym (own_calls-calls gather fill u ps none w vs))
        (submitted-Some tmp fill limited (pid_tgid u) (map (to_probe gather) ps))

-- an entry of `do_sys_open` has the memory at that time and the address of the name
abbrev pub opening : Task → Memory × ℕ → OpenData
opening t (memory, filename) = Open.gather memory t filename

module _ (tmp : HashTable OpenData) (drops : HashTable TcpData) where
  abbrev pub open_outputs : List (TaskProbe (Memory × ℕ)) → List (Task × OpenData)
  open_outputs ps =
      outputs tmp (λ t x m. Open.trace_entry tmp x.0 t x.1 m) (Open.trace_return tmp) ps tmp.empty

  abbrev pub breakout_outputs : List (TaskProbe (Memory × ℕ)) → List (Task × OpenData)
  breakout_outputs ps =
      outputs tmp (λ t x m. breakout_entry tmp x.0 t x.1 m) (breakout_return tmp) ps tmp.empty

  abbrev pub tcpdrop_outputs : List (TaskProbe Packet) → List (Task × TcpData)
  tcpdrop_outputs ps =
      outputs drops (TcpDrop.trace_entry drops) (TcpDrop.trace_return drops) ps drops.empty

  -- The programs of the tracers open, dockeropenbreakout and tcpdrop, with tables that are never full, and
  -- whatever other threads, of the same process too, do between the probes of one: what a program submits
  -- for a thread is a matter of the thread's own probes. A return gives the data that its latest entry
  -- gathered, with the return value, once, and a return without an entry before it gives nothing.
  pub outputs-calls :
      HasRoom tmp
      → HasRoom drops
      → (u : Task) (ps : List (TaskProbe (Memory × ℕ))) (qs : List (TaskProbe Packet)) → IsTask u
      → AreTasks ps
      → AreTasks qs
      → (of_task u (open_outputs ps) ≡ own_calls opening Open.set_return u ps none)
        × (of_task u (breakout_outputs ps) ≡ own_calls opening Open.set_return u ps none)
        × (of_task u (tcpdrop_outputs qs) ≡ own_calls TcpDrop.gather TcpDrop.set_return u qs none)
  unfolding Open.trace_entry Open.trace_return breakout_entry breakout_return TcpDrop.trace_entry
      TcpDrop.trace_return
  outputs-calls room spare u ps qs w vs ws = (
    outputs-own_calls tmp opening Open.set_return _ _ (λ t x m. refl) (λ t rc m. refl) room u ps w
        vs,
    outputs-own_calls tmp opening Open.set_return _ _ (λ t x m. refl) (λ t rc m. refl) room u ps w
        vs,
    outputs-own_calls drops TcpDrop.gather TcpDrop.set_return _ _ (λ t x m. refl) (λ t rc m. refl)
        spare u qs w ws,
  )

  -- The same programs where a table may be full: what a program submits for a thread are some of the
  -- thread's own calls, in their order and each at most once, with the data of the latest entry before
  -- the return. A full table loses calls, but it never gives the data of an earlier call or of another
  -- thread, of the same process or not.
  pub outputs_full :
      IsLimited tmp
      → IsLimited drops
      → (u : Task) (ps : List (TaskProbe (Memory × ℕ))) (qs : List (TaskProbe Packet)) → IsTask u
      → AreTasks ps
      → AreTasks qs
      → Some (of_task u (open_outputs ps)) (own_calls opening Open.set_return u ps none)
        × Some (of_task u (breakout_outputs ps)) (own_calls opening Open.set_return u ps none)
        × Some
            (of_task u (tcpdrop_outputs qs))
            (own_calls TcpDrop.gather TcpDrop.set_return u qs none)
  unfolding Open.trace_entry Open.trace_return breakout_entry breakout_return TcpDrop.trace_entry
      TcpDrop.trace_return
  outputs_full limited small u ps qs w vs ws = (
    outputs-Some tmp opening Open.set_return _ _ (λ t x m. refl) (λ t rc m. refl) limited u ps w vs,
    outputs-Some tmp opening Open.set_return _ _ (λ t x m. refl) (λ t rc m. refl) limited u ps w vs,
    outputs-Some drops TcpDrop.gather TcpDrop.set_return _ _ (λ t x m. refl) (λ t rc m. refl) small
        u qs w ws,
  )

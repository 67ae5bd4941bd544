-- ===== src/Examples/Pairing.antt =====
-- The theorems about the tables of saved data, with room for all threads and with room for one.
use bpfd.Prelude.{
  ℕ, ◌≡◌, refl, ◌⊎◌, inl, inr, Option, none, some, List, [], ◌∷◌, arith, nat_beq, nat_beq_iff,
  if◌then◌else◌, Bool-cases, nat_eq, replicate, text_eq,
}
use bpfd.GoMap
use bpfd.GoMap.Laws.{lookup-insert, lookup-delete}
use bpfd.Bpf.{Task, IsTask, Memory, HashTable, HasRoom}
use bpfd.Bpf.Full.{IsLimited, Some}
use bpfd.Bpf.Open.{OpenData}
use bpfd.Bpf.Open
use bpfd.Bpf.TcpDrop.{Packet, TcpData}
use bpfd.Bpf.TcpDrop
use bpfd.Bpf.Threads.{
  TaskProbe, enters, leaves, AreTasks, of_task, own_calls, opening, open_outputs, breakout_outputs,
  tcpdrop_outputs, outputs-calls, outputs_full,
}
use bpfd.Examples.Kernel.{memory, shell, shell-IsTask}

-- an association list is a table with room
abbrev assoc : (A : Type 0) → HashTable A
assoc A = record {
  Table = List (ℕ × A);
  empty = [];
  lookup = λ i m. GoMap.lookup i m;
  update = λ i a m. GoMap.insert i a m;
  delete = λ i m. GoMap.delete i m;
}

assoc-HasRoom : (A : Type 0) → HasRoom (assoc A)
unfolding GoMap.lookup
assoc-HasRoom A = record {
  lookup-empty = λ i. refl;
  lookup-update = λ i j a m. lookup-insert i j a m;
  lookup-delete = λ i j m. lookup-delete i j m;
}

-- another thread of the process of `shell`
abbrev worker : Task
worker = record shell { thread = 8 }

worker-IsTask : IsTask worker
worker-IsTask = record {
  pid = omega arith;
  thread = omega arith;
  parent = omega arith;
  uid = omega arith;
  gid = omega arith;
  comm = refl;
}

-- the call of one thread within that of the other, and returns without an entry
abbrev opens : List (TaskProbe (Memory × ℕ))
opens =
    leaves shell 0
    ∷ enters shell (memory, 3000)
    ∷ enters worker (memory, 2000)
    ∷ leaves worker 5
    ∷ leaves shell 7
    ∷ leaves shell 8
    ∷ []

opens-AreTasks : AreTasks opens
opens-AreTasks = (
  shell-IsTask,
  (shell-IsTask, (worker-IsTask, (worker-IsTask, (shell-IsTask, (shell-IsTask, tt))))),
)

abbrev packet : Packet
packet = record { state = 1; tcp = replicate 20 0; ip = replicate 20 0 }

abbrev drops : List (TaskProbe Packet)
drops = enters shell packet ∷ enters worker packet ∷ leaves worker 0 ∷ leaves shell 0 ∷ []

drops-AreTasks : AreTasks drops
drops-AreTasks = (shell-IsTask, (worker-IsTask, (worker-IsTask, (shell-IsTask, tt))))

outputs-calls_example :
    (of_task shell (open_outputs (assoc OpenData) (assoc TcpData) opens)
      ≡ own_calls opening Open.set_return shell opens none)
    × (of_task shell (breakout_outputs (assoc OpenData) (assoc TcpData) opens)
        ≡ own_calls opening Open.set_return shell opens none)
    × (of_task shell (tcpdrop_outputs (assoc OpenData) (assoc TcpData) drops)
        ≡ own_calls TcpDrop.gather TcpDrop.set_return shell drops none)
outputs-calls_example =
    outputs-calls (assoc OpenData) (assoc TcpData) (assoc-HasRoom OpenData) (assoc-HasRoom TcpData)
      shell opens drops shell-IsTask opens-AreTasks drops-AreTasks

-- A table with room for one thread.
abbrev Cell : Type 0 → Type 0
Cell A = Option (ℕ × A)

abbrev lookup_cell : {A : Type 0} → ℕ → Cell A → Option A
lookup_cell i none = none
lookup_cell i (some (j, a)) = if nat_beq j i then some a else none

abbrev update_cell : {A : Type 0} → ℕ → A → Cell A → Cell A
update_cell i a none = some (i, a)
update_cell i a (some (j, b)) = if nat_beq j i then some (i, a) else some (j, b)

abbrev delete_cell : {A : Type 0} → ℕ → Cell A → Cell A
delete_cell i none = none
delete_cell i (some (j, b)) = if nat_beq j i then none else some (j, b)

abbrev one_cell : (A : Type 0) → HashTable A
one_cell A = record {
  Table = Cell A;
  empty = none;
  lookup = lookup_cell;
  update = update_cell;
  delete = delete_cell;
}

update_cell_cases :
    {A : Type 0} (i : ℕ) (a : A) (m : Cell A)
    → ((j : ℕ)
        → lookup_cell j (update_cell i a m) ≡ (if nat_beq i j then some a else lookup_cell j m))
      ⊎ ((lookup_cell i m ≡ none) × ((j : ℕ) → lookup_cell j (update_cell i a m) ≡ lookup_cell j m))
update_cell_cases i a none = inl (λ j. refl)
update_cell_cases i a (some (k, b)) = elim (Bool-cases (nat_beq k i)) [
  | inl t ↦ inl (λ j. let e : k ≡ i = (nat_beq_iff k i).0 t in ground arith)
  | inr f ↦ inr (rw f refl, λ j. rw f refl)
]

lookup-delete_cell :
    {A : Type 0} (i j : ℕ) (m : Cell A)
    → lookup_cell j (delete_cell i m) ≡ (if nat_beq i j then none else lookup_cell j m)
lookup-delete_cell i j none = ground arith
lookup-delete_cell i j (some (k, b)) = ground arith

one_cell-IsLimited : (A : Type 0) → IsLimited (one_cell A)
one_cell-IsLimited A = record {
  lookup-empty = λ i. refl;
  lookup-update = update_cell_cases;
  lookup-delete = lookup-delete_cell;
}

-- the call of the second thread is lost, since the first has the room
worker_lost : of_task worker (open_outputs (one_cell OpenData) (one_cell TcpData) opens) ≡ []
unfolding Open.trace_entry Open.trace_return
worker_lost = refl

outputs_full_example :
    Some
      (of_task worker (open_outputs (one_cell OpenData) (one_cell TcpData) opens))
      (own_calls opening Open.set_return worker opens none)
    × Some
        (of_task worker (breakout_outputs (one_cell OpenData) (one_cell TcpData) opens))
        (own_calls opening Open.set_return worker opens none)
    × Some
        (of_task worker (tcpdrop_outputs (one_cell OpenData) (one_cell TcpData) drops))
        (own_calls TcpDrop.gather TcpDrop.set_return worker drops none)
outputs_full_example =
    outputs_full (one_cell OpenData) (one_cell TcpData) (one_cell-IsLimited OpenData)
      (one_cell-IsLimited TcpData) worker opens drops worker-IsTask opens-AreTasks drops-AreTasks

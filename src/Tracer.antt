-- ===== src/Tracer.antt =====
-- tracer/tracer.go: the registry of tracers, and `UnloadAll`. The tracers that the daemon loaded and
-- those that `Get` makes are objects, so the model has a store of them. What a `WatchEvent` returns is
-- a `WatchResult`; the tracers are in the modules below.
pub mod Registry
pub mod Loading
pub mod Open
pub mod Exec
pub mod DockerOpenBreakout
pub mod BashReadline
pub mod TcpDrop
use bpfd.Prelude.{
  ℕ, zero, suc, Bool, true, false, Option, none, some, List, [], ◌∷◌, ◌++◌, Eq, nat_eq, length,
  Result, ok, err, Text, text_eq,
}
use bpfd.Grpc.{Event}
use bpfd.GoMap.{lookup, insert, keys}

-- What a `WatchEvent` does with a buffer: it returns an event or none, it returns an error, or it
-- panics.
pub data WatchResult : Type 0 where
  returned : Option Event → WatchResult
  decode_failed : WatchResult
  ids_failed : ℕ → WatchResult
  invalid_state : ℕ → WatchResult
  inspect_failed : Text → WatchResult
  panicked : WatchResult

-- The tracer objects: whether each has its bpf module loaded. A pointer is a place in the list.
abbrev pub Store : Type 0
Store = List Bool

abbrev pub Pointer : Type 0
Pointer = ℕ

-- An `InitFunc` makes a new object, with nothing loaded, or fails.
abbrev pub InitFunc : Type 0
InitFunc = Bool

-- the errors of `Register`, `Get` and a failed `InitFunc`
pub data RegistryError : Type 0 where
  already_registered unknown init_failed : Text → RegistryError

abbrev pub Registered : Type 0
Registered = List (Text × InitFunc)

-- `Register`
unfoldable pub register :
    Text → InitFunc → Registered → Result RegistryError (Unit {0}) × Registered
register name init_func tracers = elim (lookup name tracers) [
  | some _ ↦ (err (already_registered name), tracers)
  | none ↦ (ok tt, insert name init_func tracers)
]

-- `initFunc()`
abbrev pub run_init : Text → InitFunc → Store → Result RegistryError Pointer × Store
run_init name true store = (ok (length store), store ++ false ∷ [])
run_init name false store = (err (init_failed name), store)

-- `Get`
unfoldable pub get : Text → Registered → Store → Result RegistryError Pointer × Store
get name tracers store = elim (lookup name tracers) [
  | some init_func ↦ run_init name init_func store
  | none ↦ (err (unknown name), store)
]

-- `List`
unfoldable pub list : Registered → List Text
unfolding keys
list tracers = keys tracers

-- `Unload` of the object at a pointer: its module is closed if it is there
unfoldable pub unload : Pointer → Store → Store
unload p [] = []
unload zero (loaded ∷ store) = false ∷ store
unload (suc p) (loaded ∷ store) = loaded ∷ unload p store

-- `prog.Unload()` on what `Get` gave; `none` is the panic of a call on the nil tracer of a failed `Get`
unfoldable pub unload_got : Result RegistryError Pointer × Store → Option Store
unfolding unload
unload_got (err e, store) = none
unload_got (ok ptr, store) = some (unload ptr store)

-- the loop of `UnloadAll`
unfoldable pub unload_loop : List Text → Registered → Store → Option Store
unload_loop [] tracers store = some store
unload_loop (p ∷ ps) tracers store = elim (unload_got (get p tracers store)) [
  | none ↦ none
  | some store' ↦ unload_loop ps tracers store'
]

-- `UnloadAll`
unfoldable pub unload_all : Registered → Store → Option Store
unfolding unload_loop list
unload_all tracers store = unload_loop (list tracers) tracers store

-- ===== src/Room/Registry/Log.antt =====
-- The registry (internal/game/room/registry.go) is a log of instances: what it is, and that the maps of
-- pointers implement it.
pub mod Implements
use mathlib.Core.List.{append_assoc}
use realtime_room_middleware.Base.{
  ℕ, zero, suc, ◌+◌, ◌≤◌, ◌≡◌, refl, sym, ap, subst, ◌∙◌, ite, if_pos, if_neg, Bool, true, false,
  Option, none, some, List, [], ◌∷◌, ◌++◌, map, String, length, length-append, string_discrete,
  arith, Option-cases, inl, inr, if◌then◌else◌, same,
}
use realtime_room_middleware.Base.Map.{Map, lookup, insert, string_key, lookup-insert}
use realtime_room_middleware.Base.Result.{Result, ok, err}
use realtime_room_middleware.Room.{RoomStatus, created, closed}
use realtime_room_middleware.Room.Registry.{
  RoomInstance, InMemoryRoomRegistry, RegistryError, new_registry, cell_at, write_at, or_none,
  new_instance, create_room, get_room, list_instances, close_instance, mark_closed,
}

-- The calls that change a registry.
pub data RegistryCall : Type 0 where
  creates : String → String → ℕ → RegistryCall
  closes : String → ℕ → RegistryCall

abbrev pub or_kept :
    InMemoryRoomRegistry → Result RegistryError InMemoryRoomRegistry → InMemoryRoomRegistry
or_kept reg (ok reg') = reg'
or_kept reg (err _) = reg

abbrev pub or_kept_created :
    InMemoryRoomRegistry → Result RegistryError (ℕ × InMemoryRoomRegistry) → InMemoryRoomRegistry
or_kept_created reg (ok (_, reg')) = reg'
or_kept_created reg (err _) = reg

after : InMemoryRoomRegistry → RegistryCall → InMemoryRoomRegistry
after reg (creates id logical now) = or_kept_created reg (create_room reg id logical now)
after reg (closes id now) = or_kept reg (mark_closed reg id now)

pub run : InMemoryRoomRegistry → List RegistryCall → InMemoryRoomRegistry
unfolding after
run reg [] = reg
run reg (c ∷ cs) = run (after reg c) cs

-- The log: the instances in the order of their creation, each with its state.
abbrev pub InstanceLog : Type 0
InstanceLog = List RoomInstance

unfoldable pub find : String → InstanceLog → Option RoomInstance
find id [] = none
find id (x ∷ xs) = ite (string_discrete x.instance_id id) (some x) (find id xs)

unfoldable pub of_logical : String → InstanceLog → List RoomInstance
of_logical logical [] = []
of_logical logical (x ∷ xs) =
    let rest = of_logical logical xs in
    ite (string_discrete x.logical_room_id logical) (x ∷ rest) rest

-- What a call does to the log: a new id is added at the end, and the first instance of an id is
-- closed.
unfoldable pub close_first : String → ℕ → InstanceLog → InstanceLog
close_first id now [] = []
close_first id now (x ∷ xs) =
    let rest = close_first id now xs in
    ite (string_discrete x.instance_id id) (close_instance now x ∷ xs) (x ∷ rest)

unfoldable pub logged : InstanceLog → RegistryCall → InstanceLog
unfolding close_first find
logged log (creates id logical now) = elim (find id log) [
  | none ↦ log ++ new_instance id logical now ∷ []
  | some _ ↦ log
]
logged log (closes id now) = close_first id now log

pub log_of : InstanceLog → List RegistryCall → InstanceLog
unfolding logged
log_of log [] = log
log_of log (c ∷ cs) = log_of (logged log c) cs

-- Where the first instance of an id stands, and where those of a logical room stand.
pub position : ℕ → String → InstanceLog → Option ℕ
position n id [] = none
position n id (x ∷ xs) =
    let rest = position (suc n) id xs in ite (string_discrete x.instance_id id) (some n) rest

pub positions : ℕ → String → InstanceLog → List ℕ
positions n logical [] = []
positions n logical (x ∷ xs) =
    let rest = positions (suc n) logical xs in
    ite (string_discrete x.logical_room_id logical) (n ∷ rest) rest

-- The maps say where the instances stand.
pub record InStep (reg : InMemoryRoomRegistry) : Type 0 where
  pub by_id : (id : String) → lookup id reg.instances ≡ position 0 id reg.cells
  pub by_room : (l : String) → or_none (lookup l reg.by_logical) ≡ positions 0 l reg.cells

-- Reading a slice of pointers.
unfoldable pub read_all : List RoomInstance → List ℕ → List RoomInstance
read_all cells [] = []
read_all cells (a ∷ rest_of) =
    let rest = read_all cells rest_of in elim (cell_at cells a) [ none ↦ rest | some x ↦ x ∷ rest ]

-- The instance that GetRoom's pointer leads to.
abbrev pub deref : InMemoryRoomRegistry → Result RegistryError ℕ → Option RoomInstance
deref reg (ok a) = cell_at reg.cells a
deref reg (err _) = none

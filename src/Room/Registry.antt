-- ===== src/Room/Registry.antt =====
-- internal/game/room/registry.go: the in-memory registry of room instances. Both maps point to the same
-- `RoomInstance`s: an instance is kept in `cells`, and its address is its position there.
pub mod Log
use realtime_room_middleware.Base.{
  ℕ, zero, suc, Bool, true, false, Option, none, some, List, [], ◌∷◌, ◌++◌, String, length,
}
use realtime_room_middleware.Base.Map.{Map, lookup, insert, string_key}
use realtime_room_middleware.Base.Result.{Result, ok, err}
use realtime_room_middleware.Room.{RoomStatus, created, closed}

pub record RoomInstance : Type 0 where
  pub instance_id : String
  pub logical_room_id : String
  pub status : RoomStatus
  pub created_at : ℕ
  pub closed_at : Option ℕ

pub record InMemoryRoomRegistry : Type 0 where
  pub cells : List RoomInstance
  pub instances : Map String ℕ
  pub by_logical : Map String (List ℕ)

pub data RegistryError : Type 0 where
  already_exists instance_not_found : String → RegistryError

-- NewInMemoryRoomRegistry
abbrev pub new_registry : InMemoryRoomRegistry
new_registry = record { cells = []; instances = []; by_logical = [] }

-- What a pointer points to.
abbrev pub cell_at : List RoomInstance → ℕ → Option RoomInstance
cell_at [] a = none
cell_at (x ∷ xs) zero = some x
cell_at (x ∷ xs) (suc a) = cell_at xs a

-- A write through a pointer.
unfoldable pub write_at : List RoomInstance → ℕ → (RoomInstance → RoomInstance) → List RoomInstance
write_at [] a f = []
write_at (x ∷ xs) zero f = f x ∷ xs
write_at (x ∷ xs) (suc a) f = x ∷ write_at xs a f

abbrev pub or_none : Option (List ℕ) → List ℕ
or_none none = []
or_none (some l) = l

abbrev pub new_instance : String → String → ℕ → RoomInstance
new_instance id logical now = record {
  instance_id = id;
  logical_room_id = logical;
  status = created;
  created_at = now;
  closed_at = none;
}

-- The registry with one instance more.
abbrev pub registered : InMemoryRoomRegistry → String → String → ℕ → InMemoryRoomRegistry
registered reg id logical now =
    let a = length reg.cells in
    record {
      cells = reg.cells ++ new_instance id logical now ∷ [];
      instances = insert id a reg.instances;
      by_logical =
          insert logical (or_none (lookup logical reg.by_logical) ++ a ∷ []) reg.by_logical;
    }

-- CreateRoom: the address of the instance, and the registry.
unfoldable pub create_room :
    InMemoryRoomRegistry → String → String → ℕ → Result RegistryError (ℕ × InMemoryRoomRegistry)
create_room reg id logical now = elim (lookup id reg.instances) [
  | some _ ↦ err (already_exists id)
  | none ↦ ok (length reg.cells, registered reg id logical now)
]

-- GetRoom
unfoldable pub get_room : InMemoryRoomRegistry → String → Result RegistryError ℕ
get_room reg id = elim (lookup id reg.instances) [
  | none ↦ err (instance_not_found id)
  | some a ↦ ok a
]

-- ListInstances: a copy of the slice.
unfoldable pub list_instances : InMemoryRoomRegistry → String → List ℕ
list_instances reg logical = or_none (lookup logical reg.by_logical)

abbrev pub close_instance : ℕ → RoomInstance → RoomInstance
close_instance now inst = record inst { status = closed; closed_at = some now }

-- MarkClosed
unfoldable pub mark_closed :
    InMemoryRoomRegistry → String → ℕ → Result RegistryError InMemoryRoomRegistry
unfolding write_at
mark_closed reg id now = elim (lookup id reg.instances) [
  | none ↦ err (instance_not_found id)
  | some a ↦ ok (record reg { cells = write_at reg.cells a (close_instance now) })
]

-- ===== src/Room/Manager.antt =====
-- internal/game/room/manager.go: the rooms of a server. A room is kept in `heap` at its address; `rooms`
-- is the manager's map of pointers. `format` stands for `fmt.Sprintf("%s-%04d", ...)`. A broadcaster is
-- no part of a room's state here: tick returns what it would be given.
-- CloseRoom and Shutdown let the mutex go before they stop a room and mark its instance: they are several
-- steps, and steps of other calls may come between. CreateRoom is one step.
pub mod Entries
pub mod Agreement
use realtime_room_middleware.Base.{
  ℕ, suc, ◌+◌, Bool, true, false, Option, none, some, List, [], ◌∷◌, String, length,
}
use realtime_room_middleware.Base.Floats.{Floats}
use realtime_room_middleware.Base.Map.{Map, lookup, insert, delete, string_key, nat_key}
use realtime_room_middleware.Base.Result.{Result, ok, err}
use realtime_room_middleware.Room.{Room, RoomConfig, RoomSpec, new_room}
use realtime_room_middleware.Room.Lifecycle.{RoomError, start, stop, finish_stop}
use realtime_room_middleware.Room.Registry
use realtime_room_middleware.Room.Registry.Log.{or_kept}
use realtime_room_middleware.Room.Registry.{
  InMemoryRoomRegistry, RegistryError, new_registry, mark_closed,
}

pub record RoomManager (F : Type 0) : Type 0 where
  pub registry : InMemoryRoomRegistry
  pub config : RoomConfig F
  pub rooms : Map String ℕ
  pub heap : Map ℕ (Room F)
  pub next_address : ℕ
  pub instance_counter : ℕ  -- uint64

-- A manager, with the rooms that calls of CloseRoom and Shutdown which have not returned have taken out of
-- the map and are closing.
pub record ManagerState (F : Type 0) : Type 0 where
  pub manager : RoomManager F
  pub closing : Map String ℕ

pub data ManagerError : Type 0 where
  not_registered : RegistryError → ManagerError
  not_started : RoomError → ManagerError
  room_not_found : String → ManagerError

-- The copy that Shutdown makes of the map, with what is closed already.
unfoldable pub with_rooms : Map String ℕ → Map String ℕ → Map String ℕ
with_rooms [] closing = closing
with_rooms ((id, a) ∷ rooms) closing = insert id a (with_rooms rooms closing)

module _ {F : Type 0} where
  -- NewRoomManager, with a registry of its own.
  abbrev pub new_manager : RoomConfig F → RoomManager F
  new_manager cfg = record {
    registry = new_registry;
    config = cfg;
    rooms = [];
    heap = [];
    next_address = 0;
    instance_counter = 0;
  }

  -- RoomManager.GetRoom
  unfoldable pub get_room : RoomManager F → String → Result ManagerError ℕ
  get_room m id = elim (lookup id m.rooms) [ none ↦ err (room_not_found id) | some a ↦ ok a ]

  -- ActiveRoomCount
  abbrev pub active_room_count : RoomManager F → ℕ
  active_room_count m = length m.rooms

  -- Room.Stop, of the room at an address.
  unfoldable pub stop_at : Map ℕ (Room F) → ℕ → Map ℕ (Room F)
  stop_at heap a = elim (lookup a heap) [
    | none ↦ heap
    | some r ↦ insert a (finish_stop (stop r)) heap
  ]

  -- CloseRoom, as long as it holds the mutex: the room is taken out of the map.
  unfoldable pub begin_close : ManagerState F → String → Result ManagerError (ManagerState F)
  begin_close st id = elim (lookup id st.manager.rooms) [
    | none ↦ err (room_not_found id)
    | some a ↦ ok (record {
      manager = record st.manager { rooms = delete id st.manager.rooms };
      closing = insert id a st.closing;
    })
  ]

  -- Shutdown, as long as it holds the mutex: all rooms are taken out of the map.
  unfoldable pub begin_shutdown : ManagerState F → ManagerState F
  begin_shutdown st = record {
    manager = record st.manager { rooms = [] };
    closing = with_rooms st.manager.rooms st.closing;
  }

  -- CloseRoom and Shutdown, of one room: Stop.
  unfoldable pub halt : ManagerState F → String → ManagerState F
  unfolding stop_at
  halt st id = elim (lookup id st.closing) [
    | none ↦ st
    | some a ↦ record st { manager = record st.manager { heap = stop_at st.manager.heap a } }
  ]

  -- CloseRoom and Shutdown, of one room: MarkClosed. An error of MarkClosed is only logged, or dropped.
  unfoldable pub mark : ManagerState F → String → ℕ → ManagerState F
  mark st id now = elim (lookup id st.closing) [
    | none ↦ st
    | some _ ↦ record {
      manager = record st.manager {
        registry = or_kept st.manager.registry (mark_closed st.manager.registry id now);
      };
      closing = delete id st.closing;
    }
  ]

module _ (fl : Floats) (format : String → ℕ → String) where
  open fl use {F32}

  -- The part of CreateRoomWithBroadcaster that comes after the room has been registered.
  started :
      RoomManager F32
      → String
      → ℕ
      → Result RoomError (Room F32)
      → Result ManagerError ℕ × RoomManager F32
  started m id now (ok r') = (
    ok m.next_address,
    record m {
      rooms = insert id m.next_address m.rooms;
      heap = insert m.next_address r' m.heap;
      next_address = suc m.next_address;
    },
  )
  started m id now (err e) = (
    err (not_started e),
    record m { registry = or_kept m.registry (mark_closed m.registry id now) },
  )

  -- CreateRoomWithBroadcaster, and CreateRoom: the address of the room, and the manager.
  unfoldable pub create_room :
      RoomManager F32 → String → ℕ → Result ManagerError ℕ × RoomManager F32
  unfolding started
  create_room m logical now =
      let n = suc m.instance_counter in
      let id = format logical n in
      elim (Registry.create_room m.registry id logical now) [
        | err e ↦ (err (not_registered e), record m { instance_counter = n })
        | ok (_, reg) ↦
            let r =
              new_room fl
                (record { logical_room_id = logical; instance_id = id; config = m.config }) in
            started (record m { instance_counter = n; registry = reg }) id now (start r)
      ]

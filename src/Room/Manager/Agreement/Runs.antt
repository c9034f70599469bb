-- ===== src/Room/Manager/Agreement/Runs.antt =====
-- After any calls on the manager (internal/game/room/manager.go).
use realtime_room_middleware.Base.{
  ℕ, suc, ◌≡◌, refl, sym, ap, subst, ◌∙◌, Option, none, some, List, [], ◌∷◌, String, arith,
  Option-cases, inl, inr, ◌⊎◌,
}
use realtime_room_middleware.Base.Floats.{Floats}
use realtime_room_middleware.Base.Map.{lookup, string_key, nat_key, lookup-insert}
use realtime_room_middleware.Base.Result.{Result, ok, err}
use realtime_room_middleware.Room.{Room, RoomConfig, created, running, closed, new_room}
use realtime_room_middleware.Room.Registry
use realtime_room_middleware.Room.Registry.{
  RoomInstance, InMemoryRoomRegistry, RegistryError, new_registry, new_instance, registered,
  mark_closed, close_instance,
}
use realtime_room_middleware.Room.Registry.Log.{find}
use realtime_room_middleware.Room.Manager.{
  RoomManager, ManagerState, ManagerError, new_manager, get_room, begin_close, begin_shutdown, halt,
  mark, create_room,
}
use realtime_room_middleware.Room.Manager.Entries.{Live, Entry}
use realtime_room_middleware.Room.Manager.Agreement.{
  Agrees, new_manager-Agrees, begin_close-Agrees, begin_shutdown-Agrees,
}
use realtime_room_middleware.Room.Manager.Agreement.Closing.{halt-Agrees, mark-Agrees}
use realtime_room_middleware.Room.Registry.Log.{deref}
use realtime_room_middleware.Room.Registry.Log.Implements.{get_room-find}
use realtime_room_middleware.Room.Manager.Agreement.Creating.{
  Numbers, with_room, unused, create_room-ok, create_room-Agrees,
}

-- The steps of calls on a manager, in the order in which they take effect: CreateRoom, the first part of
-- CloseRoom and of Shutdown, and for a room that is being closed its Stop and its MarkClosed. A call that
-- fails changes at most the counter.
pub data ManagerStep : Type 0 where
  creates : String → ℕ → ManagerStep
  begins_close : String → ManagerStep
  begins_shutdown : ManagerStep
  halts : String → ManagerStep
  marks : String → ℕ → ManagerStep

or_same : {F : Type 0} → ManagerState F → Result ManagerError (ManagerState F) → ManagerState F
or_same st (ok st') = st'
or_same st (err _) = st

-- What GetRoom gives is a running room with this id, whose registry entry is not closed; or GetRoom
-- knows no such room, and the registry has none but one that is closed or being closed.
abbrev pub RoomIsKnown : {F : Type 0} → ManagerState F → String → Result ManagerError ℕ → Type 0
RoomIsKnown {F} st id (ok a) =
    (r : Room F) × (inst : RoomInstance) × (lookup a st.manager.heap ≡ some r)
    × (r.status ≡ running)
    × (r.instance_id ≡ id)
    × (deref st.manager.registry (Registry.get_room st.manager.registry id) ≡ some inst)
    × (inst.status ≡ created)
RoomIsKnown {F} st id (err _) =
    (deref st.manager.registry (Registry.get_room st.manager.registry id) ≡ none)
    ⊎ ((inst : RoomInstance) × (deref st.manager.registry (Registry.get_room st.manager.registry id)
          ≡ some inst)
        × ((inst.status ≡ closed) ⊎ ((a : ℕ) × (lookup id st.closing ≡ some a))))

abbrev pub new_state : {F : Type 0} → RoomConfig F → ManagerState F
new_state cfg = record { manager = new_manager cfg; closing = [] }

module _ (fl : Floats) (format : String → ℕ → String) where
  open fl use {F32}

  after : ManagerState F32 → ManagerStep → ManagerState F32
  unfolding or_same
  after st (creates logical now) = record st {
    manager = (create_room fl format st.manager logical now).1;
  }
  after st (begins_close id) = or_same st (begin_close st id)
  after st begins_shutdown = begin_shutdown st
  after st (halts id) = halt st id
  after st (marks id now) = mark st id now

  pub run : ManagerState F32 → List ManagerStep → ManagerState F32
  unfolding after
  run st [] = st
  run st (c ∷ cs) = run (after st c) cs

  AgreesState : ManagerState F32 → Type 0
  AgreesState st = Agrees format st.manager st.closing

  module _ (numbers : Numbers format) where
    close-Agrees-or_same :
        (st : ManagerState F32) (id : String) (o : Result ManagerError (ManagerState F32))
        → begin_close st id ≡ o
        → AgreesState st
        → AgreesState (or_same st o)
    unfolding or_same AgreesState
    close-Agrees-or_same st id (ok st') e h = begin_close-Agrees format st st' id h e
    close-Agrees-or_same st id (err _) e h = h

    after-Agrees :
        (st : ManagerState F32) (c : ManagerStep) → AgreesState st → AgreesState (after st c)
    unfolding after AgreesState
    after-Agrees st (creates logical now) h =
        subst (λ (m : RoomManager F32). Agrees format m st.closing)
          (sym
            (ap (λ o. o.1) (create_room-ok fl format numbers st.manager st.closing logical now h)))
          (create_room-Agrees fl format numbers st.manager st.closing logical now h)
    after-Agrees st (begins_close id) h = close-Agrees-or_same st id (begin_close st id) refl h
    after-Agrees st begins_shutdown h = begin_shutdown-Agrees format st h
    after-Agrees st (halts id) h = halt-Agrees format st id h
    after-Agrees st (marks id now) h = mark-Agrees format st id now h

    run-Agrees :
        (st : ManagerState F32) (cs : List ManagerStep) → AgreesState st → AgreesState (run st cs)
    unfolding run
    run-Agrees st [] h = h
    run-Agrees st (c ∷ cs) h = run-Agrees (after st c) cs (after-Agrees st c h)

    known :
        (st : ManagerState F32) (id : String) (o busy : Option ℕ) (x : Option RoomInstance)
        → lookup id st.manager.rooms ≡ o
        → lookup id st.closing ≡ busy
        → deref st.manager.registry (Registry.get_room st.manager.registry id) ≡ x
        → Entry st.manager.heap id busy o x
        → RoomIsKnown st id (get_room st.manager id)
    unfolding get_room
    known st id none busy none e b f h = rw (e, get_room) (inl f)
    known st id none busy (some inst) e b f (inl done) = rw (e, get_room) (inr (inst, f, inl done))
    known st id none (some a) (some inst) e b f (inr doing) =
        rw (e, get_room) (inr (inst, f, inr (a, b)))
    known st id none none (some inst) e b f (inr doing) = absurd doing
    known st id (some a) busy none e b f h = absurd h
    known st id (some a) busy (some inst) e b f h = elim (Option-cases (lookup a st.manager.heap)) [
      | inl g ↦ absurd (subst (λ o. Live o id) g h.1)
      | inr (r, g) ↦
          let live = subst (λ o. Live o id) g h.1 in
          rw (e, get_room) (r, inst, g, live.0, live.1, f, h.0)
    ]

    -- After any steps of calls of CreateRoom, CloseRoom and Shutdown on a new manager, if Sprintf gives
    -- different texts for different numbers: a room that GetRoom gives for an id is running, has that id,
    -- and is not closed in the registry; and an id that GetRoom does not know is not in the registry, or
    -- closed there, or a call that has taken it out of the map has still to mark it closed.
    pub run-RoomIsKnown :
        (cfg : RoomConfig F32) (cs : List ManagerStep) (id : String)
        → let st = run (new_state cfg) cs in RoomIsKnown st id (get_room st.manager id)
    unfolding AgreesState
    run-RoomIsKnown cfg cs id =
        let st = run (new_state cfg) cs in
        let h = run-Agrees (new_state cfg) cs (new_manager-Agrees format cfg) in
        known st id (lookup id st.manager.rooms) (lookup id st.closing)
          (find id st.manager.registry.cells) refl refl
          (get_room-find st.manager.registry id h.in_step) (h.entries id)

    -- After any steps of calls of CreateRoom, CloseRoom and Shutdown on a new manager, if Sprintf gives
    -- different texts for different numbers, CreateRoom succeeds: its id was not in the registry, and
    -- GetRoom now gives the new room for it, which is running.
    pub run-create_room :
        (cfg : RoomConfig F32) (cs : List ManagerStep) (logical : String) (now : ℕ)
        → let m = (run (new_state cfg) cs).manager in
          let id = format logical (suc m.instance_counter) in
          let (result, m') = create_room fl format m logical now in
          (deref m.registry (Registry.get_room m.registry id) ≡ none)
          × (result ≡ ok m.next_address)
          × (get_room m' id ≡ ok m.next_address)
          × Live (lookup m.next_address m'.heap) id
    unfolding get_room new_room AgreesState
    run-create_room cfg cs logical now =
        let st = run (new_state cfg) cs in
        let m = st.manager in
        let id = format logical (suc m.instance_counter) in
        let h = run-Agrees (new_state cfg) cs (new_manager-Agrees format cfg) in
        let e = create_room-ok fl format numbers m st.closing logical now h in
        let made = with_room fl format numbers m logical now in
        let r =
          new_room fl (record { logical_room_id = logical; instance_id = id; config = m.config }) in
        let running_room : Room F32 = record r { status = running } in
        let got : get_room made id ≡ ok m.next_address =
          ground (arith, lookup-insert id id m.next_address m.rooms) in
        let there : lookup m.next_address made.heap ≡ some running_room =
          ground (arith, lookup-insert m.next_address m.next_address running_room m.heap) in
        let live : Live (lookup m.next_address made.heap) id =
          subst (λ o. Live o id) (sym there) (refl, refl) in
        (
          get_room-find m.registry id h.in_step ∙ unused fl format numbers m st.closing logical h,
          ap (λ o. o.0) e,
          subst (λ o. get_room o.1 id ≡ ok m.next_address) (sym e) got,
          subst (λ o. Live (lookup m.next_address o.1.heap) id) (sym e) live,
        )

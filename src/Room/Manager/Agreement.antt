-- ===== src/Room/Manager/Agreement.antt =====
-- That the manager's rooms, the rooms in memory and the registry agree (internal/game/room/manager.go and
-- registry.go).
pub mod Closing
pub mod Creating
pub mod Runs
use realtime_room_middleware.Base.{
  ℕ, zero, suc, ◌≤◌, ◌<◌, ◌≡◌, ◌≢◌, ◌⊎◌, refl, sym, ap, subst, ◌∙◌, ite, if_pos, if_neg, Option,
  none, some, List, [], ◌∷◌, ◌++◌, String, length, string_discrete, ℕ_discrete, arith, Option-cases,
  inl, inr,
}
use realtime_room_middleware.Base.Floats.{Floats}
use realtime_room_middleware.Base.Map.{
  Map, lookup, insert, delete, string_key, nat_key, lookup-insert, lookup-delete, Distinct,
  insert-Distinct, delete-Distinct,
}
use realtime_room_middleware.Base.Result.{Result, ok, err}
use realtime_room_middleware.Room.{
  Room, RoomConfig, RoomSpec, RoomStatus, created, running, draining, closed, new_room,
}
use realtime_room_middleware.Room.Lifecycle.{
  RoomError, start, start_from, stop, stop_from, finish_stop,
}
use realtime_room_middleware.Room.Registry
use realtime_room_middleware.Room.Registry.{
  RoomInstance, InMemoryRoomRegistry, RegistryError, new_registry, new_instance, registered,
  mark_closed, close_instance,
}
use realtime_room_middleware.Room.Registry.Log.{InStep, find, close_first, logged, closes, or_kept}
use realtime_room_middleware.Room.Registry.Log.Implements.{
  new_registry-InStep, mark_closed-InStep, find-snoc, closed_of, find-close_first,
  create_room_fresh,
}
use realtime_room_middleware.Room.Manager.{
  RoomManager, ManagerState, ManagerError, room_not_found, new_manager, get_room, stop_at,
  begin_close, begin_shutdown, with_rooms, halt, mark, started, create_room,
}
use realtime_room_middleware.Room.Manager.Entries.{
  mark-find, IsBusy, with_rooms-cases, Live, Named, Entry, stop_at-other, stop_from-instance_id,
  stop_at-Named, stop_at-some, Live-Named, Named-once, Entry-closed, Entry-Live, Entry-taken,
  Entry-other, Entry-added,
}

module _ {F : Type 0} (format : String → ℕ → String) where
  pub record Agrees (m : RoomManager F) (closing : Map String ℕ) : Type 0 where
    pub entries :
        (id : String)
        → Entry m.heap id (lookup id closing) (lookup id m.rooms) (find id m.registry.cells)
    pub in_step : InStep m.registry
    pub fresh : (a : ℕ) (r : Room F) → lookup a m.heap ≡ some r → a < m.next_address
    pub numbered :
        (id : String) (inst : RoomInstance)
        → find id m.registry.cells ≡ some inst
        → (l : String) × (n : ℕ) × (id ≡ format l n) × (n ≤ m.instance_counter)
    pub leaving :
        (id : String) (a : ℕ)
        → lookup id closing ≡ some a
        → (lookup id m.rooms ≡ none)
          × Named (lookup a m.heap) id
          × ((x : RoomInstance) × (find id m.registry.cells ≡ some x))

  pub new_manager-Agrees : (cfg : RoomConfig F) → Agrees (new_manager cfg) []
  unfolding lookup find
  new_manager-Agrees cfg = record {
    entries = λ id. tt;
    in_step = new_registry-InStep;
    fresh = λ a r h. absurd (ground arith);
    numbered = λ id inst h. absurd (ground arith);
    leaving = λ id a h. absurd (ground arith);
  }

  -- Ids move from the map of rooms to those that are being closed.
  taken-Agrees :
      (m : RoomManager F) (rooms closing closing' : Map String ℕ)
      → Agrees m closing
      → ((j : String)
          → ((lookup j rooms ≡ lookup j m.rooms) × (lookup j closing' ≡ lookup j closing))
            ⊎ ((lookup j rooms ≡ none)
                × ((a : ℕ) × ((lookup j m.rooms ≡ some a) × (lookup j closing' ≡ some a)))))
      → Agrees (record m { rooms = rooms }) closing'
  taken-Agrees m rooms closing closing' h moved = record {
    entries = λ j. elim (moved j) [
      | inl (r, c) ↦
          subst (λ o. Entry m.heap j o (lookup j rooms) (find j m.registry.cells)) (sym c)
            (subst (λ o. Entry m.heap j (lookup j closing) o (find j m.registry.cells)) (sym r)
              (h.entries j))
      | inr (r, (a, (f, c))) ↦
          subst (λ o. Entry m.heap j o (lookup j rooms) (find j m.registry.cells)) (sym c)
            (subst (λ o. Entry m.heap j (some a) o (find j m.registry.cells)) (sym r)
              (Entry-taken m.heap j a (lookup j closing) (lookup j m.rooms)
                (find j m.registry.cells) (h.entries j)))
    ];
    in_step = h.in_step;
    fresh = h.fresh;
    numbered = h.numbered;
    leaving = λ j b e. elim (moved j) [
      | inl (r, c) ↦
          let (gone, named, known) = h.leaving j b (sym c ∙ e) in (r ∙ gone, named, known)
      | inr (r, (a, (f, c))) ↦
          let (live, known) = Entry-Live m.heap j (lookup j closing) a (find j m.registry.cells) (
            subst (λ o. Entry m.heap j (lookup j closing) o (find j m.registry.cells)) f
              (h.entries j)) in
          let same_address : a ≡ b = ground arith in
          (
            r,
            subst (λ x. Named (lookup x m.heap) j) same_address
                (Live-Named (lookup a m.heap) j live),
            known,
          )
    ];
  }

  pub begin_close-Agrees :
      (st st' : ManagerState F) (id : String)
      → Agrees st.manager st.closing
      → begin_close st id ≡ ok st'
      → Agrees st'.manager st'.closing
  unfolding begin_close
  begin_close-Agrees st st' id h e = elim (Option-cases (lookup id st.manager.rooms)) [
    | inl f ↦
        let refused : begin_close st id ≡ err (room_not_found id) = rw (f, begin_close) in
        absurd (ground arith)
    | inr (a, f) ↦
        let next : ManagerState F = record {
          manager = record st.manager { rooms = delete id st.manager.rooms };
          closing = insert id a st.closing;
        } in
        let value : begin_close st id ≡ ok next = rw (f, begin_close) in
        let same_state : next ≡ st' = cc in
        subst (λ (x : ManagerState F). Agrees x.manager x.closing) same_state
          (taken-Agrees st.manager (delete id st.manager.rooms) st.closing (insert id a st.closing)
            h
            (λ j. elim (string_discrete id j) [
              | yes p ↦ inr (
                ground (arith, lookup-delete id j st.manager.rooms),
                (
                  a,
                  (
                    subst (λ x. lookup x st.manager.rooms ≡ some a) p f,
                    ground (arith, lookup-insert id j a st.closing),
                  ),
                ),
              )
              | no p ↦ inl (
                ground (arith, lookup-delete id j st.manager.rooms),
                ground (arith, lookup-insert id j a st.closing),
              )
            ]))
  ]

  pub begin_shutdown-Agrees :
      (st : ManagerState F)
      → Agrees st.manager st.closing
      → Agrees (begin_shutdown st).manager (begin_shutdown st).closing
  unfolding begin_shutdown lookup
  begin_shutdown-Agrees st h =
      taken-Agrees st.manager [] st.closing (with_rooms st.manager.rooms st.closing) h (λ j.
        elim (with_rooms-cases st.manager.rooms st.closing j) [
          | inl (e, f) ↦ inl (sym e, f)
          | inr (a, (e, f)) ↦ inr (refl, (a, (e, f)))
        ])

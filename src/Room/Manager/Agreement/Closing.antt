-- ===== src/Room/Manager/Agreement/Closing.antt =====
-- That stopping a room which is being closed, and marking it closed, keep the agreement
-- (internal/game/room/manager.go).
use realtime_room_middleware.Base.{
  ℕ, ◌≡◌, refl, sym, subst, if_pos, if_neg, none, some, String, string_discrete, arith,
  Option-cases, inl, inr,
}
use realtime_room_middleware.Base.Map.{lookup, delete, string_key, nat_key, lookup-delete}
use realtime_room_middleware.Room.Registry.{RoomInstance, mark_closed}
use realtime_room_middleware.Room.Registry.Log.{InStep, find, or_kept}
use realtime_room_middleware.Room.Registry.Log.Implements.{mark_closed-InStep, closed_of}
use realtime_room_middleware.Room.Manager.{RoomManager, ManagerState, stop_at, halt, mark}
use realtime_room_middleware.Room.Manager.Entries.{
  mark-find, Entry, stop_at-Named, stop_at-some, Entry-closed, Entry-other,
}
use realtime_room_middleware.Room.Manager.Agreement.{Agrees}

module _ {F : Type 0} (format : String → ℕ → String) where
  pub halt-Agrees :
      (st : ManagerState F) (id : String)
      → Agrees format st.manager st.closing
      → Agrees format (halt st id).manager (halt st id).closing
  unfolding halt
  halt-Agrees st id h = elim (Option-cases (lookup id st.closing)) [
    | inl f ↦
        let same_state : halt st id ≡ st = rw (f, halt) refl in
        subst (λ (x : ManagerState F). Agrees format x.manager x.closing) (sym same_state) h
    | inr (a, f) ↦
        let next : ManagerState F = record st {
          manager = record st.manager { heap = stop_at st.manager.heap a };
        } in
        let value : halt st id ≡ next = rw (f, halt) refl in
        let (gone, named, known) = h.leaving id a f in
        subst (λ (x : ManagerState F). Agrees format x.manager x.closing) (sym value)
          (record {
            entries = λ j.
                Entry-other st.manager.heap a id j (lookup j st.closing) (lookup j st.manager.rooms)
                  (find j st.manager.registry.cells)
                  (elim (string_discrete id j) [
                    | yes p ↦ inl (subst (λ x. lookup x st.manager.rooms ≡ none) p gone)
                    | no p ↦ inr p
                  ])
                  named (h.entries j);
            in_step = h.in_step;
            fresh = λ b r e. let (r', g) = stop_at-some st.manager.heap a b r e in h.fresh b r' g;
            numbered = h.numbered;
            leaving = λ j b e.
                let (gone', named', known') = h.leaving j b e in
                (gone', stop_at-Named st.manager.heap a b j named', known');
          })
  ]

  marked-find :
      (m : RoomManager F) (id j : String) (now : ℕ) (inst : RoomInstance)
      → InStep m.registry
      → find j (or_kept m.registry (mark_closed m.registry id now)).cells ≡ some inst
      → (x : RoomInstance) × (find j m.registry.cells ≡ some x)
  marked-find m id j now inst step e = elim (Option-cases (find j m.registry.cells)) [
    | inr (old, f) ↦ (old, f)
    | inl f ↦ absurd (ground (arith, mark-find m.registry j id now step))
  ]

  find-marked :
      (m : RoomManager F) (id j : String) (now : ℕ) (x : RoomInstance)
      → InStep m.registry
      → find j m.registry.cells ≡ some x
      → (y : RoomInstance) × (find j (or_kept m.registry (mark_closed m.registry id now)).cells
          ≡ some y)
  find-marked m id j now x step e =
      elim (Option-cases (find j (or_kept m.registry (mark_closed m.registry id now)).cells)) [
        | inr (y, f) ↦ (y, f)
        | inl f ↦ absurd (ground (arith, mark-find m.registry j id now step))
      ]

  pub mark-Agrees :
      (st : ManagerState F) (id : String) (now : ℕ)
      → Agrees format st.manager st.closing
      → Agrees format (mark st id now).manager (mark st id now).closing
  unfolding mark
  mark-Agrees st id now h = elim (Option-cases (lookup id st.closing)) [
    | inl f ↦
        let same_state : mark st id now ≡ st = rw (f, mark) refl in
        subst (λ (x : ManagerState F). Agrees format x.manager x.closing) (sym same_state) h
    | inr (a, f) ↦
        let m = st.manager in
        let next : ManagerState F = record {
          manager = record m { registry = or_kept m.registry (mark_closed m.registry id now) };
          closing = delete id st.closing;
        } in
        let value : mark st id now ≡ next = rw (f, mark) refl in
        let (gone, named, known) = h.leaving id a f in
        subst (λ (x : ManagerState F). Agrees format x.manager x.closing) (sym value)
          (record {
            entries = λ j.
                subst (λ o. Entry m.heap j (lookup j (delete id st.closing)) (lookup j m.rooms) o)
                  (sym (mark-find m.registry j id now h.in_step))
                  (elim (string_discrete id j) [
                    | yes p ↦ rw (if_pos _ p) (
                        subst
                          (λ o.
                            Entry m.heap j (lookup j (delete id st.closing)) o
                              (closed_of now (find j m.registry.cells)))
                          (sym (subst (λ x. lookup x m.rooms ≡ none) p gone))
                          (Entry-closed m.heap j (lookup j (delete id st.closing)) now
                            (find j m.registry.cells)))
                    | no p ↦
                        let kept : lookup j (delete id st.closing) ≡ lookup j st.closing =
                          ground (arith, lookup-delete id j st.closing) in
                        rw (if_neg _ p) (
                          subst (λ c. Entry m.heap j c (lookup j m.rooms) (find j m.registry.cells))
                            (sym kept) (h.entries j))
                  ]);
            in_step = (mark_closed-InStep m.registry id now h.in_step).0;
            fresh = h.fresh;
            numbered = λ j inst e.
                let (old, g) = marked-find m id j now inst h.in_step e in h.numbered j old g;
            leaving = λ j b e.
                let before : lookup j st.closing ≡ some b =
                  ground (arith, lookup-delete id j st.closing) in
                let (gone', named', (x, known')) = h.leaving j b before in
                (gone', named', find-marked m id j now x h.in_step known');
          })
  ]

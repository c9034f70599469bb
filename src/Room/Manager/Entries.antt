-- ===== src/Room/Manager/Entries.antt =====
-- What the manager's map, the rooms in memory and the registry say of one id, and what a stop, a mark and a
-- new room change of it (internal/game/room/manager.go).
use realtime_room_middleware.Base.{
  ℕ, ◌≡◌, ◌≢◌, ◌⊎◌, refl, sym, ap, subst, ◌∙◌, ite, Option, none, some, [], ◌∷◌, String,
  string_discrete, ℕ_discrete, arith, Option-cases, inl, inr,
}
use realtime_room_middleware.Base.Map.{Map, lookup, insert, string_key, nat_key, lookup-insert}
use realtime_room_middleware.Room.{Room, RoomStatus, created, running, draining, closed}
use realtime_room_middleware.Room.Lifecycle.{stop, stop_from, finish_stop}
use realtime_room_middleware.Room.Registry.{RoomInstance, InMemoryRoomRegistry, mark_closed}
use realtime_room_middleware.Room.Registry.Log.{InStep, find, logged, or_kept}
use realtime_room_middleware.Room.Registry.Log.Implements.{
  mark_closed-InStep, closed_of, find-close_first,
}
use realtime_room_middleware.Room.Manager.{stop_at, with_rooms}

pub mark-find :
    (reg : InMemoryRoomRegistry) (j id : String) (now : ℕ)
    → InStep reg
    → find j (or_kept reg (mark_closed reg id now)).cells
      ≡ ite (string_discrete id j) (closed_of now (find j reg.cells)) (find j reg.cells)
unfolding logged
mark-find reg j id now h =
    ap (find j) (mark_closed-InStep reg id now h).1 ∙ find-close_first j id now reg.cells

abbrev pub IsBusy : Option ℕ → Type 0
IsBusy none = ⊥
IsBusy (some a) = Unit

pub with_rooms-cases :
    (rooms closing : Map String ℕ) (j : String)
    → ((lookup j rooms ≡ none) × (lookup j (with_rooms rooms closing) ≡ lookup j closing))
      ⊎ ((a : ℕ) × ((lookup j rooms ≡ some a) × (lookup j (with_rooms rooms closing) ≡ some a)))
unfolding with_rooms lookup
with_rooms-cases [] closing j = inl (refl, refl)
with_rooms-cases ((id, a) ∷ rooms) closing j = elim (string_discrete id j) [
  | yes p ↦ inr (a, (ground arith, ground (arith, lookup-insert id j a (with_rooms rooms closing))))
  | no p ↦ elim (with_rooms-cases rooms closing j) [
    | inl (e, f) ↦
        inl (ground arith, ground (arith, lookup-insert id j a (with_rooms rooms closing)))
    | inr (b, (e, f)) ↦
        inr (b, (ground arith, ground (arith, lookup-insert id j a (with_rooms rooms closing))))
  ]
]

module _ {F : Type 0} where
  -- A running room with this id.
  abbrev pub Live : Option (Room F) → String → Type 0
  Live none id = ⊥
  Live (some r) id = (r.status ≡ running) × (r.instance_id ≡ id)

  -- A room with this id.
  abbrev pub Named : Option (Room F) → String → Type 0
  Named none id = ⊥
  Named (some r) id = r.instance_id ≡ id

  -- What the manager, the memory and the registry say of one id, which is being closed or not: no room, and
  -- no instance, or one that is closed or being closed; or a running room, and an instance that is not
  -- closed.
  abbrev pub Entry : Map ℕ (Room F) → String → Option ℕ → Option ℕ → Option RoomInstance → Type 0
  Entry heap id busy none none = Unit
  Entry heap id busy none (some inst) = (inst.status ≡ closed) ⊎ IsBusy busy
  Entry heap id busy (some a) none = ⊥
  Entry heap id busy (some a) (some inst) = (inst.status ≡ created) × Live (lookup a heap) id

  pub stop_at-other :
      (heap : Map ℕ (Room F)) (a b : ℕ) → a ≢ b → lookup b (stop_at heap a) ≡ lookup b heap
  unfolding stop_at
  stop_at-other heap a b ne = elim (Option-cases (lookup a heap)) [
    | inl e ↦ rw (e, stop_at)
    | inr (r, e) ↦ rw (e, stop_at) (ground (arith, lookup-insert a b (finish_stop (stop r)) heap))
  ]

  pub stop_from-instance_id :
      (r : Room F) (st : RoomStatus) → (stop_from r st).instance_id ≡ r.instance_id
  unfolding stop_from
  stop_from-instance_id r created = refl
  stop_from-instance_id r running = refl
  stop_from-instance_id r draining = refl
  stop_from-instance_id r closed = refl

  pub stop_at-Named :
      (heap : Map ℕ (Room F)) (a b : ℕ) (id : String)
      → Named (lookup b heap) id
      → Named (lookup b (stop_at heap a)) id
  unfolding stop_at stop finish_stop
  stop_at-Named heap a b id h = elim (ℕ_discrete a b) [
    | no ne ↦ subst (λ o. Named o id) (sym (stop_at-other heap a b ne)) h
    | yes p ↦ elim (Option-cases (lookup a heap)) [
      | inl e ↦ rw (e, stop_at) h
      | inr (r, e) ↦
          let old : r.instance_id ≡ id =
            subst (λ o. Named o id) e (subst (λ c. Named (lookup c heap) id) (sym p) h) in
          let now : lookup b (stop_at heap a) ≡ some (finish_stop (stop r)) =
            rw (e, stop_at) (ground (arith, lookup-insert a b (finish_stop (stop r)) heap)) in
          subst (λ o. Named o id) (sym now) (stop_from-instance_id r r.status ∙ old)
    ]
  ]

  pub stop_at-some :
      (heap : Map ℕ (Room F)) (a b : ℕ) (r : Room F)
      → lookup b (stop_at heap a) ≡ some r
      → (r' : Room F) × (lookup b heap ≡ some r')
  unfolding stop_at
  stop_at-some heap a b r h = elim (Option-cases (lookup b heap)) [
    | inr (r', e) ↦ (r', e)
    | inl e ↦ elim (Option-cases (lookup a heap)) [
      | inl f ↦ absurd (ground arith)
      | inr (q, f) ↦ absurd (ground (arith, lookup-insert a b (finish_stop (stop q)) heap))
    ]
  ]

  pub Live-Named : (o : Option (Room F)) (id : String) → Live o id → Named o id
  Live-Named none id h = h
  Live-Named (some r) id h = h.1

  pub Named-once : (o : Option (Room F)) (id j : String) → Named o id → Live o j → id ≡ j
  Named-once none id j h k = absurd h
  Named-once (some r) id j h k = sym h ∙ k.1

  pub Entry-closed :
      (heap : Map ℕ (Room F)) (id : String) (busy : Option ℕ) (now : ℕ) (o : Option RoomInstance)
      → Entry heap id busy none (closed_of now o)
  Entry-closed heap id busy now none = tt
  Entry-closed heap id busy now (some x) = inl refl

  pub Entry-Live :
      (heap : Map ℕ (Room F)) (id : String) (busy : Option ℕ) (a : ℕ) (o : Option RoomInstance)
      → Entry heap id busy (some a) o
      → Live (lookup a heap) id × ((x : RoomInstance) × (o ≡ some x))
  Entry-Live heap id busy a none h = absurd h
  Entry-Live heap id busy a (some x) h = (h.1, (x, refl))

  -- An id that is taken out of the map is being closed from then on.
  pub Entry-taken :
      (heap : Map ℕ (Room F)) (id : String) (b : ℕ) (busy o : Option ℕ) (f : Option RoomInstance)
      → Entry heap id busy o f
      → Entry heap id (some b) none f
  Entry-taken heap id b busy o none h = tt
  Entry-taken heap id b busy o (some x) h = inr tt

  -- Stopping a room that the map does not have changes no entry.
  pub Entry-other :
      (heap : Map ℕ (Room F)) (a : ℕ) (id j : String) (busy o : Option ℕ) (f : Option RoomInstance)
      → ((o ≡ none) ⊎ (id ≢ j))
      → Named (lookup a heap) id
      → Entry heap j busy o f
      → Entry (stop_at heap a) j busy o f
  Entry-other heap a id j busy none none ne named h = tt
  Entry-other heap a id j busy none (some x) ne named h = h
  Entry-other heap a id j busy (some b) none ne named h = h
  Entry-other heap a id j busy (some b) (some x) (inl e) named h = absurd (ground arith)
  Entry-other heap a id j busy (some b) (some x) (inr ne) named h =
      let apart : a ≢ b = λ e.
        ne (Named-once (lookup b heap) id j (subst (λ c. Named (lookup c heap) id) e named) h.1) in
      (h.0, subst (λ o. Live o j) (sym (stop_at-other heap a b apart)) h.1)

  pub Entry-added :
      (heap : Map ℕ (Room F)) (a : ℕ) (r : Room F) (j : String) (busy o : Option ℕ)
      (f : Option RoomInstance)
      → lookup a heap ≡ none
      → Entry heap j busy o f
      → Entry (insert a r heap) j busy o f
  Entry-added heap a r j busy none none empty h = tt
  Entry-added heap a r j busy none (some x) empty h = h
  Entry-added heap a r j busy (some b) none empty h = h
  Entry-added heap a r j busy (some b) (some x) empty h =
      let apart : a ≢ b =
        λ e. absurd (subst (λ o. Live o j) (subst (λ c. lookup c heap ≡ none) e empty) h.1) in
      let kept : lookup b (insert a r heap) ≡ lookup b heap =
        ground (arith, lookup-insert a b r heap) in
      (h.0, subst (λ o. Live o j) (sym kept) h.1)

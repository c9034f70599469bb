-- ===== src/Session/Indexes.antt =====
-- The invariant that ties the two indexes to the sessions on the heap.
use realtime_room_middleware.Base.{
  ℕ, ◌≤◌, ◌≡◌, ◌≢◌, refl, ◌∙◌, none, some, String, arith, string_discrete, ℕ_discrete,
}
use realtime_room_middleware.Base.Map.{lookup, string_key, nat_key, lookup-insert, lookup-delete}
use realtime_room_middleware.Session.{
  SessionManager, Session, SessionState-discrete, pending, attached, closed, add_session,
  attach_session, detach_session, close_session, attached_as, detached_from,
}

module _ {C : Type 0} where
  -- What an entry of the index by ID says.
  pub record IdEntry (m : SessionManager C) (id : String) (a : ℕ) : Type 0 where
    pub session : Session C
    pub stored : lookup a m.heap ≡ some session
    pub named : session.id ≡ id
    pub live : session.state ≢ closed
    pub idle : session.state ≢ attached → session.user_id ≡ ""
    pub indexed :
        session.state ≡ attached → session.user_id ≢ "" → lookup session.user_id m.by_user ≡ some a

  -- What an entry of the index by user says.
  pub record UserEntry (m : SessionManager C) (user : String) (a : ℕ) : Type 0 where
    pub session : Session C
    pub stored : lookup a m.heap ≡ some session
    pub owned : session.user_id ≡ user
    pub nonempty : user ≢ ""
    pub attached_now : session.state ≡ attached
    pub registered : lookup session.id m.by_id ≡ some a

  -- Every entry of an index is right, no user is empty, and addresses from `next` on are free.
  pub record Inv (m : SessionManager C) : Type 0 where
    pub ids : (id : String) (a : ℕ) → lookup id m.by_id ≡ some a → IdEntry m id a
    pub users : (user : String) (a : ℕ) → lookup user m.by_user ≡ some a → UserEntry m user a
    pub fresh : (a : ℕ) → m.next ≤ a → lookup a m.heap ≡ none

  pub add_session-Inv :
      (m : SessionManager C) (id : String) (s : Session C)
      → Inv m
      → lookup id m.by_id ≡ none
      → s.id ≡ id
      → s.state ≡ pending
      → s.user_id ≡ ""
      → Inv (add_session m id s)
  add_session-Inv m id s v new named idle nobody = record {
    ids = λ j a h. elim (string_discrete id j) [
      | yes p ↦ record {
        session = s;
        stored = ground (arith, lookup-insert m.next a s m.heap, lookup-insert id j m.next m.by_id);
        named = named ∙ p;
        live = λ e. ground arith;
        idle = λ _. nobody;
        indexed = λ e. ground arith;
      }
      | no p ↦
          let old : IdEntry m j a = v.ids j a (ground (arith, lookup-insert id j m.next m.by_id)) in
          record {
            session = old.session;
            stored = ground (arith, lookup-insert m.next a s m.heap, v.fresh m.next, old.stored);
            named = old.named;
            live = old.live;
            idle = old.idle;
            indexed = old.indexed;
          }
    ];
    users = λ u a h.
        let old : UserEntry m u a = v.users u a h in
        record {
          session = old.session;
          stored = ground (arith, lookup-insert m.next a s m.heap, v.fresh m.next, old.stored);
          owned = old.owned;
          nonempty = old.nonempty;
          attached_now = old.attached_now;
          registered =
              ground (arith, lookup-insert id old.session.id m.next m.by_id, old.registered);
        };
    fresh = λ a h. ground (arith, v.fresh a, lookup-insert m.next a s m.heap);
  }

  -- An entry whose session a step leaves alone.
  keep_user :
      (m m' : SessionManager C) (u : String) (b : ℕ) (old : UserEntry m u b)
      → lookup b m'.heap ≡ lookup b m.heap
      → lookup old.session.id m'.by_id ≡ some b
      → UserEntry m' u b
  keep_user m m' u b old h r = record {
    session = old.session;
    stored = h ∙ old.stored;
    owned = old.owned;
    nonempty = old.nonempty;
    attached_now = old.attached_now;
    registered = r;
  }

  -- A registered session with a user is the one that the index by user names.
  own_index :
      (m : SessionManager C) (a : ℕ) (s : Session C)
      → Inv m
      → lookup s.id m.by_id ≡ some a
      → lookup a m.heap ≡ some s
      → s.user_id ≢ ""
      → lookup s.user_id m.by_user ≡ some a
  own_index m a s v at stored ne =
      let e : IdEntry m s.id a = v.ids s.id a at in
      let same_session : e.session ≡ s = ground (arith, e.stored) in
      elim (SessionState-discrete e.session.state attached) [
        | yes p ↦ ground (arith, same_session, e.indexed p)
        | no p ↦ absurd (ne (ground (arith, same_session, e.idle p)))
      ]

  pub attach_session-Inv :
      (m : SessionManager C) (a : ℕ) (s : Session C) (user room : String)
      → Inv m
      → lookup s.id m.by_id ≡ some a
      → lookup a m.heap ≡ some s
      → s.state ≡ pending
      → (user ≢ "" → lookup user m.by_user ≡ none)
      → Inv (attach_session m a s user room)
  attach_session-Inv m a s user room v at stored was free = record {
    ids = λ j b h. elim (ℕ_discrete a b) [
      | yes p ↦ record {
        session = attached_as s user room;
        stored = ground (arith, lookup-insert a b (attached_as s user room) m.heap);
        named = ground (arith, (v.ids j b h).stored, (v.ids j b h).named);
        live = λ e. ground arith;
        idle = λ e. absurd (e refl);
        indexed = λ _ ne. ground (arith, lookup-insert user user a m.by_user);
      }
      | no p ↦
          let old : IdEntry m j b = v.ids j b h in
          record {
            session = old.session;
            stored = ground (arith, lookup-insert a b (attached_as s user room) m.heap, old.stored);
            named = old.named;
            live = old.live;
            idle = old.idle;
            indexed = λ e ne.
                ground (
                  arith,
                  lookup-insert user old.session.user_id a m.by_user,
                  old.indexed e ne,
                  free,
                );
          }
    ];
    users = λ u b h. elim (ℕ_discrete a b) [
      | yes p ↦ elim (string_discrete user u) [
        | yes q ↦ record {
          session = attached_as s user room;
          stored = ground (arith, lookup-insert a b (attached_as s user room) m.heap);
          owned = q;
          nonempty =
              λ e. (v.users u b (ground (arith, lookup-insert user u a m.by_user))).nonempty e;
          attached_now = refl;
          registered = ground arith;
        }
        | no q ↦
            let was_in : lookup u m.by_user ≡ some b =
              ground (arith, lookup-insert user u a m.by_user) in
            let old : UserEntry m u b = v.users u b was_in in
            absurd (ground (arith, old.stored, old.attached_now))
      ]
      | no p ↦
          let was_in : lookup u m.by_user ≡ some b =
            ground (arith, lookup-insert user u a m.by_user) in
          keep_user m (attach_session m a s user room) u b (v.users u b was_in)
            (ground (arith, lookup-insert a b (attached_as s user room) m.heap))
            (v.users u b was_in).registered
    ];
    fresh = λ b h.
        ground (arith, v.fresh b, v.fresh a, lookup-insert a b (attached_as s user room) m.heap);
  }

  pub detach_session-Inv :
      (m : SessionManager C) (a : ℕ) (s : Session C)
      → Inv m
      → lookup s.id m.by_id ≡ some a
      → lookup a m.heap ≡ some s
      → Inv (detach_session m a s)
  detach_session-Inv m a s v at stored = record {
    ids = λ j b h. elim (ℕ_discrete a b) [
      | yes p ↦ record {
        session = detached_from s;
        stored = ground (arith, lookup-insert a b (detached_from s) m.heap);
        named = ground (arith, (v.ids j b h).stored, (v.ids j b h).named);
        live = λ e. ground arith;
        idle = λ _. refl;
        indexed = λ e. ground arith;
      }
      | no p ↦
          let old : IdEntry m j b = v.ids j b h in
          record {
            session = old.session;
            stored = ground (arith, lookup-insert a b (detached_from s) m.heap, old.stored);
            named = old.named;
            live = old.live;
            idle = old.idle;
            indexed = λ e ne. ground (
              arith,
              lookup-delete s.user_id old.session.user_id m.by_user,
              old.indexed e ne,
              own_index m a s v at stored,
            );
          }
    ];
    users = λ u b h.
        let was_in : lookup u m.by_user ≡ some b =
          ground (arith, lookup-delete s.user_id u m.by_user) in
        let old : UserEntry m u b = v.users u b was_in in
        let apart : a ≢ b = λ p.
          ground
            (arith, lookup-delete s.user_id u m.by_user, old.stored, old.owned, old.nonempty) in
        keep_user m (detach_session m a s) u b old
          (ground (arith, lookup-insert a b (detached_from s) m.heap)) old.registered;
    fresh = λ b h. ground (arith, v.fresh b, v.fresh a, lookup-insert a b (detached_from s) m.heap);
  }

  pub close_session-Inv :
      (m : SessionManager C) (a : ℕ) (s : Session C)
      → Inv m
      → lookup s.id m.by_id ≡ some a
      → lookup a m.heap ≡ some s
      → Inv (close_session m s.id a s)
  close_session-Inv m a s v at stored = record {
    ids = λ j b h.
        let was_in : lookup j m.by_id ≡ some b = ground (arith, lookup-delete s.id j m.by_id) in
        let old : IdEntry m j b = v.ids j b was_in in
        let apart : a ≢ b =
          λ p. ground (arith, lookup-delete s.id j m.by_id, old.stored, old.named) in
        record {
          session = old.session;
          stored =
              ground (arith, lookup-insert a b (record s { state = closed }) m.heap, old.stored);
          named = old.named;
          live = old.live;
          idle = old.idle;
          indexed = λ e ne. ground (
            arith,
            lookup-delete s.user_id old.session.user_id m.by_user,
            old.indexed e ne,
            own_index m a s v at stored,
          );
        };
    users = λ u b h.
        let was_in : lookup u m.by_user ≡ some b =
          ground (arith, lookup-delete s.user_id u m.by_user) in
        let old : UserEntry m u b = v.users u b was_in in
        let apart : a ≢ b = λ p.
          ground
            (arith, lookup-delete s.user_id u m.by_user, old.stored, old.owned, old.nonempty) in
        keep_user m (close_session m s.id a s) u b old
          (ground (arith, lookup-insert a b (record s { state = closed }) m.heap))
          (ground (arith, lookup-delete s.id old.session.id m.by_id, old.registered));
    fresh = λ b h.
        ground
          (arith, v.fresh b, v.fresh a, lookup-insert a b (record s { state = closed }) m.heap);
  }

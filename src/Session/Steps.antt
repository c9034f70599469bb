-- ===== src/Session/Steps.antt =====
-- Every sequence of calls on the registry keeps its indexes consistent.
use realtime_room_middleware.Base.{
  ℕ, ◌≡◌, ◌≢◌, refl, subst, Option, none, some, List, [], ◌∷◌, String, arith, Option-cases, inl,
  inr, Bool-cases,
}
use realtime_room_middleware.Base.Map.{lookup, string_key, nat_key}
use realtime_room_middleware.Base.Result.{Result, ok, err}
use realtime_room_middleware.Session.{
  SessionManager, Session, SessionState, SessionError, TransportType, pending, attached, detached,
  closed, new_session_manager, new_session, register, attach, detach, close, get, get_by_user,
  taken, blocker, close_session, attach_in, attach_pending, is_gone, is_closed,
}
use realtime_room_middleware.Session.Indexes.{
  Inv, IdEntry, UserEntry, add_session-Inv, attach_session-Inv, detach_session-Inv,
  close_session-Inv,
}

pub data SessionCall (C : Type 0) : Type 0 where
  registers : String → TransportType → C → ℕ → SessionCall C
  attaches : String → String → String → SessionCall C
  detaches closes : String → SessionCall C

module _ {C : Type 0} where
  abbrev pub settle : SessionManager C → Result SessionError (SessionManager C) → SessionManager C
  settle m (ok m') = m'
  settle m (err _) = m

  abbrev pub settle_close :
      SessionManager C → Result SessionError (SessionManager C × Option C) → SessionManager C
  settle_close m (ok (m', _)) = m'
  settle_close m (err _) = m

  -- A call that returns an error leaves the registry as it was.
  unfoldable pub after : SessionManager C → SessionCall C → SessionManager C
  after m (registers id t conn now) = settle m (register m id t conn now)
  after m (attaches id user room) = settle m (attach m id user room)
  after m (detaches id) = settle m (detach m id)
  after m (closes id) = settle_close m (close m id)

  unfoldable pub run : SessionManager C → List (SessionCall C) → SessionManager C
  run m [] = m
  run m (c ∷ cs) = run (after m c) cs

  -- What `Get` finds is registered under the ID, and carries it.
  pub get-entry :
      (m : SessionManager C) (id : String) (a : ℕ) (s : Session C)
      → Inv m
      → get m id ≡ some (a, s)
      → (lookup id m.by_id ≡ some a) × (lookup a m.heap ≡ some s) × (s.id ≡ id)
  get-entry m id a s v e = elim (Option-cases (lookup id m.by_id)) [
    | inl n ↦ absurd (ground arith)
    | inr (b, p) ↦
        let entry : IdEntry m id b = v.ids id b p in
        (
          ground (arith, entry.stored),
          ground (arith, entry.stored),
          ground (arith, entry.stored, entry.named),
        )
  ]

  register-Inv :
      (m : SessionManager C) (id : String) (t : TransportType) (conn : C) (now : ℕ)
      → Inv m
      → Inv (settle m (register m id t conn now))
  unfolding register
  register-Inv m id t conn now v = elim (Option-cases (lookup id m.by_id)) [
    | inl e ↦ rw (e, register) (add_session-Inv m id (new_session id t conn now) v e refl refl refl)
    | inr (a, e) ↦ rw (e, register) v
  ]

  -- A user that the guard of `Attach` lets through has no session at all.
  untaken :
      (m : SessionManager C) (a : ℕ) (s : Session C) (user : String)
      → Inv m
      → lookup s.id m.by_id ≡ some a
      → lookup a m.heap ≡ some s
      → s.state ≡ pending
      → taken (get_by_user m user) s.id ≡ none
      → lookup user m.by_user ≡ none
  untaken m a s user v at stored was free = elim (Option-cases (lookup user m.by_user)) [
    | inl e ↦ e
    | inr (b, e) ↦
        let old : UserEntry m user b = v.users user b e in
        absurd (ground (arith, old.stored, old.registered, old.attached_now))
  ]

  unblocked :
      (m : SessionManager C) (a : ℕ) (s : Session C) (user : String)
      → Inv m
      → lookup s.id m.by_id ≡ some a
      → lookup a m.heap ≡ some s
      → s.state ≡ pending
      → blocker m s user ≡ none
      → user ≢ ""
      → lookup user m.by_user ≡ none
  unfolding blocker
  unblocked m a s user v at stored was e ne = untaken m a s user v at stored was (ground arith)

  attach_in-Inv :
      (st : SessionState) (m : SessionManager C) (a : ℕ) (s : Session C) (user room : String)
      → Inv m
      → lookup s.id m.by_id ≡ some a
      → lookup a m.heap ≡ some s
      → s.state ≡ st
      → Inv (settle m (attach_in st m a s user room))
  unfolding attach_in
  attach_in-Inv pending m a s user room v at stored was = elim (Option-cases (blocker m s user)) [
    | inl e ↦
        rw (e, attach_pending)
          (attach_session-Inv m a s user room v at stored was
            (unblocked m a s user v at stored was e))
    | inr (other, e) ↦ rw (e, attach_pending) v
  ]
  attach_in-Inv attached m a s user room v at stored was = v
  attach_in-Inv detached m a s user room v at stored was = v
  attach_in-Inv closed m a s user room v at stored was = v

  attach-Inv :
      (m : SessionManager C) (id user room : String)
      → Inv m
      → Inv (settle m (attach m id user room))
  unfolding attach
  attach-Inv m id user room v = elim (Option-cases (get m id)) [
    | inl e ↦ rw (e, attach) v
    | inr ((a, s), e) ↦
        let (at, stored, named) = get-entry m id a s v e in
        rw (e, attach) (attach_in-Inv s.state m a s user room v (rw named at) stored refl)
  ]

  detach-Inv : (m : SessionManager C) (id : String) → Inv m → Inv (settle m (detach m id))
  unfolding detach
  detach-Inv m id v = elim (Option-cases (get m id)) [
    | inl e ↦ rw (e, detach) v
    | inr ((a, s), e) ↦
        let (at, stored, named) = get-entry m id a s v e in
        elim (Bool-cases (is_gone s.state)) [
          | inl gone ↦ rw (e, detach) (rw gone v)
          | inr here ↦ rw (e, detach) (rw here (detach_session-Inv m a s v (rw named at) stored))
        ]
  ]

  close-Inv : (m : SessionManager C) (id : String) → Inv m → Inv (settle_close m (close m id))
  unfolding close
  close-Inv m id v = elim (Option-cases (get m id)) [
    | inl e ↦ rw (e, close) v
    | inr ((a, s), e) ↦
        let (at, stored, named) = get-entry m id a s v e in
        elim (Bool-cases (is_closed s.state)) [
          | inl gone ↦ rw (e, close) (rw gone v)
          | inr here ↦
              rw (e, close)
                (rw here (
                  subst (λ (j : String). Inv (close_session m j a s)) named
                    (close_session-Inv m a s v (rw named at) stored)))
        ]
  ]

  pub after-Inv : (m : SessionManager C) (c : SessionCall C) → Inv m → Inv (after m c)
  unfolding after
  after-Inv m (registers id t conn now) v = register-Inv m id t conn now v
  after-Inv m (attaches id user room) v = attach-Inv m id user room v
  after-Inv m (detaches id) v = detach-Inv m id v
  after-Inv m (closes id) v = close-Inv m id v

  run-Inv_from : (m : SessionManager C) (cs : List (SessionCall C)) → Inv m → Inv (run m cs)
  unfolding run
  run-Inv_from m [] v = v
  run-Inv_from m (c ∷ cs) v = run-Inv_from (after m c) cs (after-Inv m c v)

  new-Inv : Inv (new_session_manager {C = C})
  unfolding new_session_manager lookup
  new-Inv = record {
    ids = λ id a h. absurd (ground arith);
    users = λ u a h. absurd (ground arith);
    fresh = λ a h. refl;
  }

  -- After any sequence of calls on a new registry, both indexes are right: an ID leads to a live
  -- session with that ID, a user leads to the attached session of that user, which is registered
  -- under its own ID, and every registered, attached session with a user is found by that user.
  pub run-Inv : (cs : List (SessionCall C)) → Inv (run new_session_manager cs)
  run-Inv cs = run-Inv_from new_session_manager cs new-Inv

  -- So no user ever has two attached sessions: two IDs whose sessions are attached for the same
  -- non-empty user are one ID.
  pub run-one_session :
      (cs : List (SessionCall C)) (i j : String) (a b : ℕ) (s t : Session C)
      → get (run new_session_manager cs) i ≡ some (a, s)
      → get (run new_session_manager cs) j ≡ some (b, t)
      → s.state ≡ attached
      → t.state ≡ attached
      → s.user_id ≡ t.user_id
      → s.user_id ≢ ""
      → i ≡ j
  run-one_session cs i j a b s t e e' p p' same_user ne =
      let v = run-Inv cs in
      let (at, stored, named) = get-entry (run new_session_manager cs) i a s v e in
      let (at', stored', named') = get-entry (run new_session_manager cs) j b t v e' in
      let x = v.ids i a at in
      let y = v.ids j b at' in
      ground (
        arith,
        x.stored,
        x.indexed (ground (arith, x.stored)),
        y.stored,
        y.indexed (ground (arith, y.stored)),
      )

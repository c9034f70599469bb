-- ===== src/Session/States.antt =====
-- The life of one session object: pending, attached, detached, closed.
use realtime_room_middleware.Base.{
  ℕ, ◌≤◌, ◌∙◌, ◌≡◌, ◌≢◌, refl, subst, false, inl, inr, Option, some, List, [], ◌∷◌, String, arith,
  ℕ_discrete, Option-cases, Bool-cases,
}
use realtime_room_middleware.Base.Map.{Map, lookup, insert, nat_key, string_key, lookup-insert}
use realtime_room_middleware.Session.{
  SessionManager, Session, SessionState, TransportType, pending, attached, detached, closed,
  new_session, register, attach, detach, close, get, blocker, attach_in, attach_pending,
  attached_as, detached_from, is_gone, is_closed,
}
use realtime_room_middleware.Session.Indexes.{Inv}
use realtime_room_middleware.Session.Steps.{
  SessionCall, registers, attaches, detaches, closes, after, run, settle, settle_close, get-entry,
  after-Inv,
}

-- What one call may do to the state of a session.
pub data Moves : SessionState → SessionState → Type 0 where
  stay : {s : SessionState} → Moves s s
  join : Moves pending attached
  leave : {s : SessionState} → s ≢ detached → s ≢ closed → Moves s detached
  shut : {s : SessionState} → s ≢ closed → Moves s closed

is_gone_not : (st : SessionState) → is_gone st ≡ false → (st ≢ detached) × (st ≢ closed)
is_gone_not pending h = (λ e. cc, λ e. cc)
is_gone_not attached h = (λ e. cc, λ e. cc)
is_gone_not detached h = absurd (ground arith)
is_gone_not closed h = absurd (ground arith)

is_closed_not : (st : SessionState) → is_closed st ≡ false → st ≢ closed
is_closed_not st h e = ground arith

abbrev pub rank : SessionState → ℕ
rank pending = 0
rank attached = 1
rank detached = 2
rank closed = 3

rank-le : (s : SessionState) → rank s ≤ 3
rank-le pending = omega arith
rank-le attached = omega arith
rank-le detached = omega arith
rank-le closed = omega arith

rank_left : (s : SessionState) → s ≢ detached → s ≢ closed → rank s ≤ 2
rank_left pending d c = omega arith
rank_left attached d c = omega arith
rank_left detached d c = absurd (d refl)
rank_left closed d c = absurd (c refl)

Moves-rank : {s t : SessionState} → Moves s t → rank s ≤ rank t
Moves-rank stay = omega arith
Moves-rank join = omega arith
Moves-rank (leave d c) = rank_left _ d c
Moves-rank (shut c) = rank-le _

module _ {C : Type 0} where
  -- The object `t` is a later state of the object `s`.
  pub record Follows (s : Session C) (h : Option (Session C)) : Type 0 where
    pub now : Session C
    pub stored : h ≡ some now
    pub same_id : now.id ≡ s.id
    pub moved : Moves s.state now.state

  unmoved : (s : Session C) (h : Option (Session C)) → h ≡ some s → Follows s h
  unmoved s h e = record { now = s; stored = e; same_id = refl; moved = stay }

  -- A write of `t` at `b`, seen from address `a`.
  written :
      (heap : Map ℕ (Session C)) (a b : ℕ) (s s' t : Session C)
      → lookup a heap ≡ some s
      → lookup b heap ≡ some s'
      → t.id ≡ s'.id
      → Moves s'.state t.state
      → Follows s (lookup a (insert b t heap))
  written heap a b s s' t e e' i mv = elim (ℕ_discrete b a) [
    | yes p ↦
        let same_object : s' ≡ s = ground arith in
        record {
          now = t;
          stored = ground (arith, lookup-insert b a t heap);
          same_id = ground arith;
          moved = subst (λ (x : Session C). Moves x.state t.state) same_object mv;
        }
    | no p ↦ unmoved s (lookup a (insert b t heap)) (ground (arith, lookup-insert b a t heap))
  ]

  register-Follows :
      (m : SessionManager C) (id : String) (t : TransportType) (conn : C) (now : ℕ) (a : ℕ)
      (s : Session C)
      → Inv m
      → lookup a m.heap ≡ some s
      → Follows s (lookup a (settle m (register m id t conn now)).heap)
  unfolding register
  register-Follows m id t conn now a s v e =
      unmoved s _
        (ground (arith, v.fresh m.next, lookup-insert m.next a (new_session id t conn now) m.heap))

  attach_in-Follows :
      (st : SessionState) (m : SessionManager C) (b : ℕ) (s' : Session C) (user room : String)
      (a : ℕ) (s : Session C)
      → lookup a m.heap ≡ some s
      → lookup b m.heap ≡ some s'
      → s'.state ≡ st
      → Follows s (lookup a (settle m (attach_in st m b s' user room)).heap)
  unfolding attach_in
  attach_in-Follows pending m b s' user room a s e e' p = elim (Option-cases (blocker m s' user)) [
    | inl free ↦
        rw (free, attach_pending)
          (written m.heap a b s s' (attached_as s' user room) e e' refl (rw p join))
    | inr (other, full) ↦ rw (full, attach_pending) (unmoved s _ e)
  ]
  attach_in-Follows attached m b s' user room a s e e' p = unmoved s _ e
  attach_in-Follows detached m b s' user room a s e e' p = unmoved s _ e
  attach_in-Follows closed m b s' user room a s e e' p = unmoved s _ e

  attach-Follows :
      (m : SessionManager C) (id user room : String) (a : ℕ) (s : Session C)
      → Inv m
      → lookup a m.heap ≡ some s
      → Follows s (lookup a (settle m (attach m id user room)).heap)
  unfolding attach
  attach-Follows m id user room a s v e = elim (Option-cases (get m id)) [
    | inl n ↦ rw (n, attach) (unmoved s _ e)
    | inr ((b, s'), g) ↦
        rw (g, attach)
          (attach_in-Follows s'.state m b s' user room a s e (get-entry m id b s' v g).1 refl)
  ]

  detach-Follows :
      (m : SessionManager C) (id : String) (a : ℕ) (s : Session C)
      → Inv m
      → lookup a m.heap ≡ some s
      → Follows s (lookup a (settle m (detach m id)).heap)
  unfolding detach
  detach-Follows m id a s v e = elim (Option-cases (get m id)) [
    | inl n ↦ rw (n, detach) (unmoved s _ e)
    | inr ((b, s'), g) ↦ elim (Bool-cases (is_gone s'.state)) [
      | inl gone ↦ rw (g, detach) (rw gone (unmoved s _ e))
      | inr here ↦
          let (not_detached, not_closed) = is_gone_not s'.state here in
          rw (g, detach)
            (rw here (
              written m.heap a b s s' (detached_from s') e (get-entry m id b s' v g).1 refl
                (leave not_detached not_closed)))
    ]
  ]

  close-Follows :
      (m : SessionManager C) (id : String) (a : ℕ) (s : Session C)
      → Inv m
      → lookup a m.heap ≡ some s
      → Follows s (lookup a (settle_close m (close m id)).heap)
  unfolding close
  close-Follows m id a s v e = elim (Option-cases (get m id)) [
    | inl n ↦ rw (n, close) (unmoved s _ e)
    | inr ((b, s'), g) ↦ elim (Bool-cases (is_closed s'.state)) [
      | inl gone ↦ rw (g, close) (rw gone (unmoved s _ e))
      | inr here ↦
          rw (g, close)
            (rw here (
              written m.heap a b s s' (record s' { state = closed }) e (get-entry m id b s' v g).1
                refl (shut (is_closed_not s'.state here))))
    ]
  ]

  -- In a consistent registry, a call keeps every session object on the heap and its ID, and changes
  -- the object's state only from pending to attached, from pending or attached to detached, or from
  -- any other state to closed.
  pub after-Follows :
      (m : SessionManager C) (c : SessionCall C) (a : ℕ) (s : Session C)
      → Inv m
      → lookup a m.heap ≡ some s
      → Follows s (lookup a (after m c).heap)
  unfolding after
  after-Follows m (registers id t conn now) a s v e = register-Follows m id t conn now a s v e
  after-Follows m (attaches id user room) a s v e = attach-Follows m id user room a s v e
  after-Follows m (detaches id) a s v e = detach-Follows m id a s v e
  after-Follows m (closes id) a s v e = close-Follows m id a s v e

  -- Whatever calls follow on a consistent registry, a session object keeps its ID and stays on the heap,
  -- and its state never goes back in the order pending, attached, detached, closed.
  pub run-rank :
      (m : SessionManager C) (cs : List (SessionCall C)) (a : ℕ) (s : Session C)
      → Inv m
      → lookup a m.heap ≡ some s
      → (t : Session C) × ((lookup a (run m cs).heap ≡ some t)
          × (t.id ≡ s.id)
          × (rank s.state ≤ rank t.state))
  unfolding run
  run-rank m [] a s v e = (s, (e, refl, omega arith))
  run-rank m (c ∷ cs) a s v e =
      let f = after-Follows m c a s v e in
      let (t, (stored, same_id, later)) =
        run-rank (after m c) cs a f.now (after-Inv m c v) f.stored in
      (t, (stored, same_id ∙ f.same_id, omega (arith, Moves-rank f.moved, later)))

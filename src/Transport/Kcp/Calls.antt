-- ===== src/Transport/Kcp/Calls.antt =====
-- What happens to a KCP server, and that it keeps track of its sessions (internal/transport/kcp).
use realtime_room_middleware.Base.{
  ℕ, ◌≡◌, ◌⊎◌, inl, inr, refl, subst, sym, Bool, true, List, [], ◌∷◌, String, Bool-cases,
}
use realtime_room_middleware.Base.Map.{string_key, nat_key}
use realtime_room_middleware.Base.Result.{Result, ok, err}
use realtime_room_middleware.Transport.Kcp.{
  KcpServer, ServerError, start, close, accept, begin_stop,
}
use realtime_room_middleware.Transport.Kcp.Sessions.{
  Tracks, close-Tracks, with_running-Tracks, begin_stop-Tracks,
}
use realtime_room_middleware.Transport.Kcp.Accepting.{accept-Tracks}

-- What happens to a server; a start says whether the address could be listened on.
pub data ServerCall : Type 0 where
  call_start : Bool → ServerCall
  call_accept call_begin_stop : ServerCall
  call_close : ℕ → ServerCall

abbrev pub or_same : KcpServer → Result ServerError KcpServer → KcpServer
or_same srv (ok started) = started
or_same srv (err _) = srv

module _ (name : ℕ → String) where
  abbrev pub after : ServerCall → KcpServer → KcpServer
  after (call_start listens) srv = or_same srv (start listens srv)
  after call_accept srv = accept name srv
  after call_begin_stop srv = (begin_stop srv).1
  after (call_close a) srv = close a srv

  unfoldable pub run : List ServerCall → KcpServer → KcpServer
  run [] srv = srv
  run (c ∷ calls) srv = run calls (after c srv)

  -- The loop of a Stop that has these sessions left to close, with any calls in between.
  pub data Closing : List ℕ → KcpServer → KcpServer → Type 0 where
    done : {srv : KcpServer} → Closing [] srv srv
    closes :
        {a : ℕ} {found : List ℕ} {srv end : KcpServer}
        → Closing found (close a srv) end
        → Closing (a ∷ found) srv end
    meanwhile :
        {found : List ℕ} {srv end : KcpServer} (c : ServerCall)
        → Closing found (after c srv) end
        → Closing found srv end

  -- Whether a start comes between.
  abbrev pub Restarts : {found : List ℕ} {srv end : KcpServer} → Closing found srv end → Type 0
  Restarts done = ⊥
  Restarts (closes k) = Restarts k
  Restarts (meanwhile (call_start _) k) = Unit
  Restarts (meanwhile call_accept k) = Restarts k
  Restarts (meanwhile call_begin_stop k) = Restarts k
  Restarts (meanwhile (call_close _) k) = Restarts k

  module _ (name_inj : (a b : ℕ) → name a ≡ name b → a ≡ b) where
    pub start-cases :
        (listens : Bool) (srv : KcpServer)
        → (or_same srv (start listens srv) ≡ srv)
          ⊎ (or_same srv (start listens srv) ≡ record srv { listening = true; running = true })
    unfolding start
    start-cases listens srv = elim (Bool-cases srv.running) [
      | inl r ↦ inl (rw (r, start) refl)
      | inr r ↦ elim (Bool-cases listens) [
        | inr l ↦ inl (rw (r, start, l) refl)
        | inl l ↦ inr (rw (r, start, l) refl)
      ]
    ]

    pub after-Tracks :
        (c : ServerCall) (srv : KcpServer) → Tracks name srv → Tracks name (after c srv)
    after-Tracks (call_start listens) srv t = elim (start-cases listens srv) [
      | inl same ↦ subst (Tracks name) (sym same) t
      | inr value ↦
          subst (Tracks name) (sym value) (with_running-Tracks name name_inj srv true true t)
    ]
    after-Tracks call_accept srv t = accept-Tracks name name_inj srv t
    after-Tracks call_begin_stop srv t = begin_stop-Tracks name name_inj srv t
    after-Tracks (call_close a) srv t = close-Tracks name name_inj srv a t

    pub run-Tracks :
        (calls : List ServerCall) (srv : KcpServer) → Tracks name srv → Tracks name (run calls srv)
    unfolding run
    run-Tracks [] srv t = t
    run-Tracks (c ∷ calls) srv t = run-Tracks calls (after c srv) (after-Tracks c srv t)

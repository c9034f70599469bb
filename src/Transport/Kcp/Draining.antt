-- ===== src/Transport/Kcp/Draining.antt =====
-- That a Stop leaves no entry in the server's map unless it is started again
-- (internal/transport/kcp/server.go).
use realtime_room_middleware.Base.{
  ℕ, ◌≡◌, ◌∙◌, ◌⊎◌, inl, inr, refl, subst, sym, ap, true, false, none, some, List, String, arith,
  Option-cases,
}
use realtime_room_middleware.Base.Map.{lookup, string_key, nat_key, lookup-delete}
use realtime_room_middleware.Transport.Kcp.{KcpServer, close, closed_at, accept, begin_stop}
use realtime_room_middleware.Transport.Kcp.Sessions.{
  Tracks, close-Tracks, close-cases, begin_stop_running, begin_stop_idle,
}
use realtime_room_middleware.Transport.Kcp.Accepting.{accept-sessions, accept-running}
use realtime_room_middleware.Transport.Kcp.Calls.{
  call_start, call_accept, call_begin_stop, call_close, Closing, done, Restarts, closes, meanwhile,
  after-Tracks,
}
use realtime_room_middleware.Transport.Kcp.Stopping.{Among, Among-addresses, close-IsClosedAt}

module _ (name : ℕ → String) (name_inj : (a b : ℕ) → name a ≡ name b → a ≡ b) where
  close-shrinks :
      (srv : KcpServer) (id : String) (a b : ℕ)
      → lookup id (close b srv).sessions ≡ some a
      → lookup id srv.sessions ≡ some a
  close-shrinks srv id a b h = elim (close-cases name name_inj srv b) [
    | inl same ↦ subst (λ (q : KcpServer). lookup id q.sessions ≡ some a) same h
    | inr (s, (l, o, value)) ↦
        let h' : lookup id (closed_at b s srv).sessions ≡ some a =
          subst (λ (q : KcpServer). lookup id q.sessions ≡ some a) value h in
        ground (arith, lookup-delete s.id id srv.sessions)
  ]

  close-running : (srv : KcpServer) (b : ℕ) → (close b srv).running ≡ srv.running
  close-running srv b = elim (close-cases name name_inj srv b) [
    | inl same ↦ ap (λ (q : KcpServer). q.running) same
    | inr (s, (l, o, value)) ↦ ap (λ (q : KcpServer). q.running) value
  ]

  -- The server does not run, and its map holds only sessions that the loop has still to close.
  abbrev pub IsSettled : List ℕ → KcpServer → Type 0
  IsSettled found srv =
      (srv.running ≡ false)
      × ((id : String) (a : ℕ) → lookup id srv.sessions ≡ some a → Among a found)

  close-IsSettled :
      (found : List ℕ) (srv : KcpServer) (b : ℕ)
      → IsSettled found srv
      → IsSettled found (close b srv)
  close-IsSettled found srv b (r, only) =
      (close-running srv b ∙ r, λ id a h. only id a (close-shrinks srv id a b h))

  -- A session that was just closed is not in the map.
  close-absent :
      (srv : KcpServer) (id : String) (b : ℕ)
      → Tracks name srv
      → lookup id (close b srv).sessions ≡ some b
      → ⊥
  close-absent srv id b t h =
      let (s, (l, i, o)) = t.entries id b (close-shrinks srv id b b h) in
      let (s1, (l1, c1)) = close-IsClosedAt name name_inj srv b s l in
      let (s2, (l2, i2, o2)) = (close-Tracks name name_inj srv b t).entries id b h in ground arith

  -- Unless a start comes between, the loop leaves no entry in the map.
  pub Closing-empties :
      (found : List ℕ) (srv end : KcpServer)
      → Tracks name srv
      → IsSettled found srv
      → (k : Closing name found srv end)
      → Restarts name k ⊎ ((id : String) → lookup id end.sessions ≡ none)
  Closing-empties found srv end t (r, only) done = inr (λ id.
      elim (Option-cases (lookup id srv.sessions)) [
        | inl e ↦ e
        | inr (a, e) ↦ absurd (only id a e)
      ])
  Closing-empties found srv end t (r, only) (closes {a = b} {found = rest} k) =
      Closing-empties rest (close b srv) end (close-Tracks name name_inj srv b t)
        (
          close-running srv b ∙ r,
          λ id a h. elim (only id a (close-shrinks srv id a b h)) [
            | inl e ↦ absurd (
                close-absent srv id b t
                  (subst (λ x. lookup id (close b srv).sessions ≡ some x) e h))
            | inr later ↦ later
          ],
        )
        k
  Closing-empties found srv end t settled (meanwhile (call_start listens) k) = inl tt
  Closing-empties found srv end t (r, only) (meanwhile call_accept k) =
      Closing-empties found (accept name srv) end (after-Tracks name name_inj call_accept srv t)
        (
          accept-running name name_inj srv r,
          λ id a h. only id a (accept-sessions name name_inj srv id a r h),
        )
        k
  Closing-empties found srv end t (r, only) (meanwhile call_begin_stop k) =
      Closing-empties found (begin_stop srv).1 end
        (after-Tracks name name_inj call_begin_stop srv t)
        (subst (λ (p : List ℕ × KcpServer). IsSettled found p.1)
          (sym (begin_stop_idle name name_inj srv r)) (r, only))
        k
  Closing-empties found srv end t settled (meanwhile (call_close b) k) =
      Closing-empties found (close b srv) end (close-Tracks name name_inj srv b t)
        (close-IsSettled found srv b settled) k

  pub begin_stop-IsSettled :
      (srv : KcpServer) → srv.running ≡ true → IsSettled (begin_stop srv).0 (begin_stop srv).1
  begin_stop-IsSettled srv r =
      subst (λ (p : List ℕ × KcpServer). IsSettled p.0 p.1)
        (sym (begin_stop_running name name_inj srv r))
        (refl, λ id a h. Among-addresses srv.sessions id a h)

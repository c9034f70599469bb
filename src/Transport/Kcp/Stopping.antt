-- ===== src/Transport/Kcp/Stopping.antt =====
-- That a Stop ends with all sessions closed that it found, whatever comes between
-- (internal/transport/kcp/server.go).
use realtime_room_middleware.Base.{
  ℕ, ◌≡◌, ◌≢◌, ◌⊎◌, inl, inr, refl, subst, sym, true, false, some, List, [], ◌∷◌, String, arith,
  Bool-cases, ℕ_discrete,
}
use realtime_room_middleware.Base.Map.{Map, lookup, string_key, nat_key, lookup-insert}
use realtime_room_middleware.Transport.{RealtimeSession}
use realtime_room_middleware.Transport.Kcp.{
  KcpServer, close, closed_at, begin_stop, close_each, addresses,
}
use realtime_room_middleware.Transport.Kcp.Sessions.{
  Tracks, close_open, close-cases, begin_stop_running,
}
use realtime_room_middleware.Transport.Kcp.Accepting.{accept-keeps}
use realtime_room_middleware.Transport.Kcp.Calls.{
  ServerCall, call_start, call_accept, call_begin_stop, call_close, after, Closing, done, closes,
  meanwhile, start-cases, after-Tracks,
}

-- The session at an address is there, and closed.
abbrev pub IsClosedAt : KcpServer → ℕ → Type 0
IsClosedAt srv a = (s : RealtimeSession) × ((lookup a srv.heap ≡ some s) × (s.closed ≡ true))

abbrev pub Among : ℕ → List ℕ → Type 0
Among a [] = ⊥
Among a (b ∷ found) = (a ≡ b) ⊎ Among a found

pub Among-addresses :
    (m : Map String ℕ) (id : String) (a : ℕ) → lookup id m ≡ some a → Among a (addresses m)
unfolding lookup
Among-addresses [] id a h = absurd (ground arith)
Among-addresses ((j, b) ∷ m) id a h = ground (arith, Among-addresses m id a)

module _ (name : ℕ → String) (name_inj : (a b : ℕ) → name a ≡ name b → a ≡ b) where
  -- A session that the loop has still to close, or that is closed.
  abbrev pub Pending : List ℕ → KcpServer → ℕ → Type 0
  Pending found srv a =
      (s : RealtimeSession) × ((lookup a srv.heap ≡ some s) × ((s.closed ≡ true) ⊎ Among a found))

  pub begin_stop-heap : (srv : KcpServer) → (begin_stop srv).1.heap ≡ srv.heap
  unfolding begin_stop
  begin_stop-heap srv = ground arith

  pub close-IsClosedAt :
      (srv : KcpServer) (a : ℕ) (s : RealtimeSession)
      → lookup a srv.heap ≡ some s
      → IsClosedAt (close a srv) a
  unfolding close
  close-IsClosedAt srv a s l = elim (Bool-cases s.closed) [
    | inl c ↦
        let same : close a srv ≡ srv = rw (l, close, c) refl in
        subst (λ (q : KcpServer). IsClosedAt q a) (sym same) (s, (l, c))
    | inr o ↦
        subst (λ (q : KcpServer). IsClosedAt q a) (sym (close_open name name_inj srv a s l o))
          (
            record s { closed = true },
            (ground (arith, lookup-insert a a (record s { closed = true }) srv.heap), refl),
          )
  ]

  pub close-other :
      (srv : KcpServer) (a b : ℕ) (s : RealtimeSession)
      → a ≢ b
      → lookup a srv.heap ≡ some s
      → lookup a (close b srv).heap ≡ some s
  close-other srv a b s ne l = elim (close-cases name name_inj srv b) [
    | inl same ↦ subst (λ (q : KcpServer). lookup a q.heap ≡ some s) (sym same) l
    | inr (t, (m, o, value)) ↦
        subst (λ (q : KcpServer). lookup a q.heap ≡ some s) (sym value)
          (ground (arith, lookup-insert b a (record t { closed = true }) srv.heap))
  ]

  pub after-keeps :
      (c : ServerCall) (srv : KcpServer) (a : ℕ) (s : RealtimeSession)
      → Tracks name srv
      → lookup a srv.heap ≡ some s
      → (s' : RealtimeSession) × ((lookup a (after name c srv).heap ≡ some s')
          × ((s.closed ≡ true) → (s'.closed ≡ true)))
  after-keeps (call_start listens) srv a s t l = elim (start-cases name name_inj listens srv) [
    | inl same ↦ (s, (subst (λ (q : KcpServer). lookup a q.heap ≡ some s) (sym same) l, λ c. c))
    | inr value ↦ (s, (subst (λ (q : KcpServer). lookup a q.heap ≡ some s) (sym value) l, λ c. c))
  ]
  after-keeps call_accept srv a s t l = (s, (accept-keeps name name_inj srv a s t l, λ c. c))
  after-keeps call_begin_stop srv a s t l =
      (s, (subst (λ h. lookup a h ≡ some s) (sym (begin_stop-heap srv)) l, λ c. c))
  after-keeps (call_close b) srv a s t l = elim (ℕ_discrete a b) [
    | no ne ↦ (s, (close-other srv a b s ne l, λ c. c))
    | yes e ↦
        let (s', (l', c')) = close-IsClosedAt srv a s l in
        (s', (subst (λ x. lookup a (close x srv).heap ≡ some s') e l', λ c. c'))
  ]

  -- Whatever comes between, the loop ends with all the sessions closed that it had to close.
  pub Closing-closes :
      (found : List ℕ) (srv end : KcpServer) (a : ℕ)
      → Tracks name srv
      → Pending found srv a
      → Closing name found srv end
      → IsClosedAt end a
  Closing-closes found srv end a t (s, (l, inl c)) done = (s, (l, c))
  Closing-closes found srv end a t (s, (l, inr p)) done = absurd p
  Closing-closes found srv end a t (s, (l, inl c)) (closes {a = b} k) =
      let (s', (l', stays)) = after-keeps (call_close b) srv a s t l in
      Closing-closes _ (close b srv) end a (after-Tracks name name_inj (call_close b) srv t)
        (s', (l', inl (stays c))) k
  Closing-closes found srv end a t (s, (l, inr (inl e))) (closes {a = b} k) =
      let (s', (l', c')) = close-IsClosedAt srv a s l in
      Closing-closes _ (close b srv) end a (after-Tracks name name_inj (call_close b) srv t)
        (s', (subst (λ x. lookup a (close x srv).heap ≡ some s') e l', inl c')) k
  Closing-closes found srv end a t (s, (l, inr (inr p))) (closes {a = b} k) =
      let (s', (l', stays)) = after-keeps (call_close b) srv a s t l in
      Closing-closes _ (close b srv) end a (after-Tracks name name_inj (call_close b) srv t)
        (s', (l', inr p)) k
  Closing-closes found srv end a t (s, (l, inl c)) (meanwhile call k) =
      let (s', (l', stays)) = after-keeps call srv a s t l in
      Closing-closes found (after name call srv) end a (after-Tracks name name_inj call srv t)
        (s', (l', inl (stays c))) k
  Closing-closes found srv end a t (s, (l, inr p)) (meanwhile call k) =
      let (s', (l', stays)) = after-keeps call srv a s t l in
      Closing-closes found (after name call srv) end a (after-Tracks name name_inj call srv t)
        (s', (l', inr p)) k

  pub Closing-Tracks :
      (found : List ℕ) (srv end : KcpServer)
      → Tracks name srv
      → Closing name found srv end
      → Tracks name end
  Closing-Tracks found srv end t done = t
  Closing-Tracks found srv end t (closes {a = b} k) =
      Closing-Tracks _ (close b srv) end (after-Tracks name name_inj (call_close b) srv t) k
  Closing-Tracks found srv end t (meanwhile call k) =
      Closing-Tracks found (after name call srv) end (after-Tracks name name_inj call srv t) k

  -- The loop with nothing in between.
  pub close_each-Closing :
      (found : List ℕ) (srv : KcpServer) → Closing name found srv (close_each found srv)
  unfolding close_each
  close_each-Closing [] srv = done
  close_each-Closing (a ∷ found) srv = closes (close_each-Closing found (close a srv))

  pub close_each-old :
      (found : List ℕ) (srv : KcpServer) (a : ℕ) (s : RealtimeSession)
      → lookup a (close_each found srv).heap ≡ some s
      → (s' : RealtimeSession) × (lookup a srv.heap ≡ some s')
  unfolding close_each
  close_each-old [] srv a s l = (s, l)
  close_each-old (b ∷ found) srv a s l =
      let (s', l') = close_each-old found (close b srv) a s l in
      elim (close-cases name name_inj srv b) [
        | inl same ↦ (s', subst (λ (q : KcpServer). lookup a q.heap ≡ some s') same l')
        | inr (t, (m, o, value)) ↦ elim (ℕ_discrete b a) [
          | yes e ↦ (t, subst (λ x. lookup x srv.heap ≡ some t) e m)
          | no ne ↦
              let l'' : lookup a (closed_at b t srv).heap ≡ some s' =
                subst (λ (q : KcpServer). lookup a q.heap ≡ some s') value l' in
              (s', ground (arith, lookup-insert b a (record t { closed = true }) srv.heap))
        ]
      ]

  -- The sessions of a running server when a Stop begins.
  pub found-Pending :
      (srv : KcpServer) (a : ℕ) (s : RealtimeSession)
      → Tracks name srv
      → lookup a srv.heap ≡ some s
      → Pending (addresses srv.sessions) (record srv { running = false }) a
  found-Pending srv a s t l = elim (Bool-cases s.closed) [
    | inl c ↦ (s, (l, inl c))
    | inr o ↦ (s, (l, inr (Among-addresses srv.sessions s.id a (t.open_known a s l o))))
  ]

  abbrev pub PendingRest : ℕ → List ℕ × KcpServer → Type 0
  PendingRest a p = Pending p.0 p.1 a

  pub begun-Pending :
      (srv : KcpServer) (a : ℕ) (s : RealtimeSession)
      → srv.running ≡ true
      → Tracks name srv
      → lookup a srv.heap ≡ some s
      → Pending (begin_stop srv).0 (begin_stop srv).1 a
  begun-Pending srv a s r t l =
      subst (PendingRest a) (sym (begin_stop_running name name_inj srv r))
        (found-Pending srv a s t l)

-- ===== src/Transport/Kcp/Sessions.antt =====
-- Which sessions a KCP server knows (internal/transport/kcp/server.go).
use realtime_room_middleware.Base.{
  List, true, ℕ, ◌≤◌, ◌≡◌, ◌≢◌, ◌⊎◌, inl, inr, refl, subst, sym, Bool, true, false, some, [],
  String, arith, Option-cases, Bool-cases,
}
use realtime_room_middleware.Base.Map.{
  Map, lookup, insert, string_key, nat_key, lookup-insert, lookup-delete,
}
use realtime_room_middleware.Transport.{RealtimeSession}
use realtime_room_middleware.Transport.Kcp.{KcpServer, close, closed_at, begin_stop, addresses}

-- A session that is open after another was closed was open before.
pub kept :
    (heap : Map ℕ RealtimeSession) (a b : ℕ) (s s' : RealtimeSession)
    → lookup b (insert a (record s { closed = true }) heap) ≡ some s'
    → s'.closed ≡ false
    → (lookup b heap ≡ some s') × (a ≢ b)
kept heap a b s s' h o = ground (arith, lookup-insert a b (record s { closed = true }) heap)

module _ (name : ℕ → String) where
  -- The map holds exactly the open sessions, each under its ID, and an ID is the name of an address.
  pub record Tracks (srv : KcpServer) : Type 0 where
    pub entries :
        (id : String) (a : ℕ)
        → lookup id srv.sessions ≡ some a
        → (s : RealtimeSession) × ((lookup a srv.heap ≡ some s) × (s.id ≡ id) × (s.closed ≡ false))
    pub open_known :
        (a : ℕ) (s : RealtimeSession)
        → lookup a srv.heap ≡ some s
        → s.closed ≡ false
        → lookup s.id srv.sessions ≡ some a
    pub named :
        (a : ℕ) (s : RealtimeSession)
        → lookup a srv.heap ≡ some s
        → (a ≤ srv.session_count) × (s.id ≡ name a)

  module _ (name_inj : (a b : ℕ) → name a ≡ name b → a ≡ b) where
    pub closed_at-Tracks :
        (srv : KcpServer) (a : ℕ) (s : RealtimeSession)
        → Tracks srv
        → lookup a srv.heap ≡ some s
        → s.closed ≡ false
        → Tracks (closed_at a s srv)
    closed_at-Tracks srv a s t l o = record {
      entries = λ id b h.
          let before : lookup id srv.sessions ≡ some b =
            ground (arith, lookup-delete s.id id srv.sessions) in
          let (s', (l', i, o')) = t.entries id b before in
          (
            s',
            (
              ground (
                arith,
                l',
                l,
                i,
                h,
                lookup-delete s.id id srv.sessions,
                lookup-insert a b (record s { closed = true }) srv.heap,
              ),
              i,
              o',
            ),
          );
      open_known = λ b s' h o'.
          let (before, away) = kept srv.heap a b s s' h o' in
          let known : lookup s'.id srv.sessions ≡ some b = t.open_known b s' before o' in
          let own : s.id ≡ name a = (t.named a s l).1 in
          let other : s'.id ≡ name b = (t.named b s' before).1 in
          ground (arith, known, lookup-delete s.id s'.id srv.sessions, name_inj a b);
      named = λ b s' h. ground (
        arith,
        t.named b s',
        t.named a s l,
        h,
        lookup-insert a b (record s { closed = true }) srv.heap,
      );
    }

    pub close-cases :
        (srv : KcpServer) (a : ℕ)
        → (close a srv ≡ srv)
          ⊎ ((s : RealtimeSession) × ((lookup a srv.heap ≡ some s)
                × (s.closed ≡ false)
                × (close a srv ≡ closed_at a s srv)))
    unfolding close
    close-cases srv a = elim (Option-cases (lookup a srv.heap)) [
      | inl l ↦ inl (rw (l, close) refl)
      | inr (s, l) ↦ elim (Bool-cases s.closed) [
        | inl c ↦ inl (rw (l, close, c) refl)
        | inr c ↦ inr (s, (l, c, rw (l, close, c) refl))
      ]
    ]

    pub close_open :
        (srv : KcpServer) (a : ℕ) (s : RealtimeSession)
        → lookup a srv.heap ≡ some s
        → s.closed ≡ false
        → close a srv ≡ closed_at a s srv
    unfolding close
    close_open srv a s l c = rw (l, close, c) refl

    pub close-Tracks : (srv : KcpServer) (a : ℕ) → Tracks srv → Tracks (close a srv)
    close-Tracks srv a t = elim (close-cases srv a) [
      | inl same ↦ subst Tracks (sym same) t
      | inr (s, (l, o, value)) ↦ subst Tracks (sym value) (closed_at-Tracks srv a s t l o)
    ]

    pub with_running-Tracks :
        (srv : KcpServer) (l r : Bool)
        → Tracks srv
        → Tracks (record srv { listening = l; running = r })
    with_running-Tracks srv l r t = record {
      entries = t.entries;
      open_known = t.open_known;
      named = t.named;
    }

    pub begin_stop_running :
        (srv : KcpServer)
        → srv.running ≡ true
        → begin_stop srv ≡ (addresses srv.sessions, record srv { running = false })
    unfolding begin_stop
    begin_stop_running srv r = ground arith

    pub begin_stop_idle : (srv : KcpServer) → srv.running ≡ false → begin_stop srv ≡ ([], srv)
    unfolding begin_stop
    begin_stop_idle srv r = ground arith

    abbrev TracksRest : List ℕ × KcpServer → Type 0
    TracksRest p = Tracks p.1

    pub begin_stop-Tracks : (srv : KcpServer) → Tracks srv → Tracks (begin_stop srv).1
    begin_stop-Tracks srv t = elim (Bool-cases srv.running) [
      | inr r ↦ subst TracksRest (sym (begin_stop_idle srv r)) t
      | inl r ↦
          subst TracksRest (sym (begin_stop_running srv r))
            (with_running-Tracks srv srv.listening false t)
    ]

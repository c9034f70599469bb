-- ===== src/Transport/Kcp/Accepting.antt =====
-- What a connection does to the sessions that a KCP server knows (internal/transport/kcp/server.go).
use realtime_room_middleware.Base.{
  ℕ, ◌+◌, ◌≤◌, ◌≡◌, ◌⊎◌, inl, inr, refl, subst, sym, ap, ◌∙◌, if◌then◌else◌, Bool, true, false,
  some, [], String, arith, Bool-cases, string_discrete, ℕ_discrete,
}
use realtime_room_middleware.Base.Map.{
  Map, lookup, insert, string_key, nat_key, lookup-insert, lookup-delete,
}
use realtime_room_middleware.Transport.{RealtimeSession, kcp}
use realtime_room_middleware.Transport.Kcp.{
  KcpServer, close, closed_at, new_session, accept, send_queue_size,
}
use realtime_room_middleware.Transport.Kcp.Sessions.{Tracks, kept, close_open}

stored_after :
    (n a : ℕ) (new s : RealtimeSession) (heap : Map ℕ RealtimeSession)
    → lookup a (insert n new heap) ≡ some s
    → ((n ≡ a) × (new ≡ s)) ⊎ (lookup a heap ≡ some s)
stored_after n a new s heap h = elim (ℕ_discrete n a) [
  | yes p ↦ inl (p, ground (arith, lookup-insert n a new heap))
  | no p ↦ inr (ground (arith, lookup-insert n a new heap))
]

if_false : {A : Type 0} (b : Bool) (x y : A) → b ≡ false → (if b then x else y) ≡ y
if_false b x y h = rw (h) refl

module _ (name : ℕ → String) (name_inj : (a b : ℕ) → name a ≡ name b → a ≡ b) where
  -- A connection that comes while the server runs.
  abbrev fresh_session : KcpServer → RealtimeSession
  fresh_session srv = record {
    id = name (srv.session_count + 1);
    transport = kcp;
    closed = false;
    send_queue = [];
    send_queue_size = send_queue_size srv.cfg;
  }

  abbrev accepted : KcpServer → KcpServer
  accepted srv =
      let n = srv.session_count + 1 in
      record srv {
        session_count = n;
        heap = insert n (fresh_session srv) srv.heap;
        sessions = insert (name n) n srv.sessions;
      }

  accepted-entries :
      (srv : KcpServer)
      → Tracks name srv
      → (id : String) (a : ℕ) → lookup id (accepted srv).sessions ≡ some a
      → (s : RealtimeSession) × ((lookup a (accepted srv).heap ≡ some s)
          × (s.id ≡ id)
          × (s.closed ≡ false))
  accepted-entries srv t id a h = elim (string_discrete (name (srv.session_count + 1)) id) [
    | yes p ↦ (
      fresh_session srv,
      (
        ground (
          arith,
          lookup-insert (name (srv.session_count + 1)) id (srv.session_count + 1) srv.sessions,
          lookup-insert (srv.session_count + 1) a (fresh_session srv) srv.heap,
        ),
        p,
        refl,
      ),
    )
    | no p ↦
        let before : lookup id srv.sessions ≡ some a = ground (
          arith,
          lookup-insert (name (srv.session_count + 1)) id (srv.session_count + 1) srv.sessions,
        ) in
        let (s, (l, i, o)) = t.entries id a before in
        (
          s,
          (
            ground (
              arith,
              t.named a s l,
              lookup-insert (srv.session_count + 1) a (fresh_session srv) srv.heap,
            ),
            i,
            o,
          ),
        )
  ]

  accepted-Tracks : (srv : KcpServer) → Tracks name srv → Tracks name (accepted srv)
  accepted-Tracks srv t = record {
    entries = accepted-entries srv t;
    open_known = λ a s h o.
        elim (stored_after (srv.session_count + 1) a (fresh_session srv) s srv.heap h) [
          | inl (p, q) ↦ ground (
            arith,
            lookup-insert (name (srv.session_count + 1)) s.id (srv.session_count + 1) srv.sessions,
            ap (λ x. x.id) q,
          )
          | inr l ↦
              let own : s.id ≡ name a = (t.named a s l).1 in
              let old : a ≤ srv.session_count = (t.named a s l).0 in
              ground (
                arith,
                t.open_known a s l o,
                name_inj (srv.session_count + 1) a,
                lookup-insert (name (srv.session_count + 1)) s.id (srv.session_count + 1)
                    srv.sessions,
              )
        ];
    named = λ a s h.
        elim (stored_after (srv.session_count + 1) a (fresh_session srv) s srv.heap h) [
          | inl (p, q) ↦ (ground arith, subst (λ x. s.id ≡ name x) p (sym (ap (λ x. x.id) q)))
          | inr l ↦ (ground (arith, t.named a s l), (t.named a s l).1)
        ];
  }

  -- A connection that comes when the server has stopped: the session is closed at once.
  abbrev rejected : KcpServer → KcpServer
  rejected srv = closed_at (srv.session_count + 1) (fresh_session srv) (new_session name srv)

  rejected-Tracks : (srv : KcpServer) → Tracks name srv → Tracks name (rejected srv)
  unfolding new_session
  rejected-Tracks srv t = record {
    entries = λ id a h.
        let before : lookup id srv.sessions ≡ some a =
          ground (arith, lookup-delete (name (srv.session_count + 1)) id srv.sessions) in
        let (s, (l, i, o)) = t.entries id a before in
        (
          s,
          (
            ground (
              arith,
              t.named a s l,
              lookup-insert (srv.session_count + 1) a (fresh_session srv) srv.heap,
              lookup-insert (srv.session_count + 1) a (record (fresh_session srv) { closed = true })
                  (new_session name srv).heap,
            ),
            i,
            o,
          ),
        );
    open_known = λ a s h o.
        let (l, away) =
          kept (insert (srv.session_count + 1) (fresh_session srv) srv.heap) (srv.session_count + 1)
            a (fresh_session srv) s h o in
        let before : lookup a srv.heap ≡ some s =
          ground (arith, lookup-insert (srv.session_count + 1) a (fresh_session srv) srv.heap) in
        let own : s.id ≡ name a = (t.named a s before).1 in
        ground (
          arith,
          t.open_known a s before o,
          name_inj (srv.session_count + 1) a,
          lookup-delete (name (srv.session_count + 1)) s.id srv.sessions,
        );
    named = λ a s h. elim (stored_after (srv.session_count + 1) a _ s _ h) [
      | inl (p, q) ↦ (ground arith, subst (λ x. s.id ≡ name x) p (sym (ap (λ x. x.id) q)))
      | inr l' ↦ elim (stored_after (srv.session_count + 1) a (fresh_session srv) s srv.heap l') [
        | inl (p, q) ↦ (ground arith, subst (λ x. s.id ≡ name x) p (sym (ap (λ x. x.id) q)))
        | inr l ↦ (ground (arith, t.named a s l), (t.named a s l).1)
      ]
    ];
  }

  accept_stopped : (srv : KcpServer) → srv.running ≡ false → accept name srv ≡ rejected srv
  unfolding accept new_session
  accept_stopped srv r =
      let n = srv.session_count + 1 in
      let stored : lookup n (insert n (fresh_session srv) srv.heap) ≡ some (fresh_session srv) =
        ground (arith, lookup-insert n n (fresh_session srv) srv.heap) in
      let shut : close n (new_session name srv) ≡ rejected srv =
        close_open name name_inj (new_session name srv) n (fresh_session srv) stored refl in
      if_false srv.running _ _ r ∙ shut

  accept_running : (srv : KcpServer) → srv.running ≡ true → accept name srv ≡ accepted srv
  unfolding accept new_session
  accept_running srv r = rw (r, accept, new_session) refl

  pub accept-Tracks : (srv : KcpServer) → Tracks name srv → Tracks name (accept name srv)
  accept-Tracks srv t = elim (Bool-cases srv.running) [
    | inl r ↦ subst (Tracks name) (sym (accept_running srv r)) (accepted-Tracks srv t)
    | inr r ↦ subst (Tracks name) (sym (accept_stopped srv r)) (rejected-Tracks srv t)
  ]

  -- A connection changes no session that was there.
  pub accept-keeps :
      (srv : KcpServer) (a : ℕ) (s : RealtimeSession)
      → Tracks name srv
      → lookup a srv.heap ≡ some s
      → lookup a (accept name srv).heap ≡ some s
  unfolding new_session
  accept-keeps srv a s t l = elim (Bool-cases srv.running) [
    | inl r ↦
        subst (λ (q : KcpServer). lookup a q.heap ≡ some s) (sym (accept_running srv r))
          (ground (
            arith,
            t.named a s l,
            lookup-insert (srv.session_count + 1) a (fresh_session srv) srv.heap,
          ))
    | inr r ↦
        subst (λ (q : KcpServer). lookup a q.heap ≡ some s) (sym (accept_stopped srv r))
          (ground (
            arith,
            t.named a s l,
            lookup-insert (srv.session_count + 1) a (fresh_session srv) srv.heap,
            lookup-insert (srv.session_count + 1) a (record (fresh_session srv) { closed = true })
                (new_session name srv).heap,
          ))
  ]

  -- A stopped server that accepts a connection stays stopped, and has no new entry.
  pub accept-sessions :
      (srv : KcpServer) (id : String) (a : ℕ)
      → srv.running ≡ false
      → lookup id (accept name srv).sessions ≡ some a
      → lookup id srv.sessions ≡ some a
  unfolding new_session
  accept-sessions srv id a r h =
      let h' : lookup id (rejected srv).sessions ≡ some a =
        subst (λ (q : KcpServer). lookup id q.sessions ≡ some a) (accept_stopped srv r) h in
      ground (arith, lookup-delete (name (srv.session_count + 1)) id srv.sessions)

  pub accept-running : (srv : KcpServer) → srv.running ≡ false → (accept name srv).running ≡ false
  unfolding new_session
  accept-running srv r = subst (λ (q : KcpServer). q.running ≡ false) (sym (accept_stopped srv r)) r

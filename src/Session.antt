-- ===== src/Session.antt =====
-- internal/game/session: the registry of game sessions (session.go, manager.go). Two indexes share
-- `*Session` pointers, so sessions live on a heap and the indexes hold addresses. `C` stands for
-- `transport.RealtimeSession`. A method holds the manager's mutex from its first line to its last,
-- so each is one step.
pub mod Indexes
pub mod Steps
pub mod States
use realtime_room_middleware.Base.{
  ℕ, ◌+◌, ◌≡◌, Bool, true, false, ◌&&◌, not, Option, none, some, List, [], ◌∷◌, String, length,
  is_empty, same, if◌then◌else◌,
}
use realtime_room_middleware.Base.Map.{Map, lookup, insert, delete, string_key, nat_key}
use realtime_room_middleware.Base.Result.{Result, ok, err}

pub data SessionState : Type 0 where
  pending attached detached closed : SessionState

pub SessionState-discrete : Discrete SessionState
SessionState-discrete = hlevel

pub data TransportType : Type 0 where
  kcp websocket : TransportType

pub record Session (C : Type 0) : Type 0 where
  pub id : String
  pub user_id : String
  pub room_instance_id : String
  pub transport_type : TransportType
  pub conn : C
  pub state : SessionState
  pub created_at : ℕ

pub record SessionManager (C : Type 0) : Type 0 where
  pub heap : Map ℕ (Session C)
  pub next : ℕ
  pub by_id : Map String ℕ
  pub by_user : Map String ℕ

pub data SessionError : Type 0 where
  already_registered session_not_found : String → SessionError
  cannot_attach : SessionState → SessionError
  user_active : String → String → SessionError

abbrev pub index_user : String → ℕ → Map String ℕ → Map String ℕ
index_user user a m = if is_empty user then m else insert user a m

abbrev pub unindex_user : String → Map String ℕ → Map String ℕ
unindex_user user m = if is_empty user then m else delete user m

abbrev pub is_gone : SessionState → Bool
is_gone closed = true
is_gone detached = true
is_gone _ = false

abbrev pub is_closed : SessionState → Bool
is_closed closed = true
is_closed _ = false

module _ {C : Type 0} where
  unfoldable pub new_session_manager : SessionManager C
  new_session_manager = record { heap = []; next = 0; by_id = []; by_user = [] }

  abbrev pub new_session : String → TransportType → C → ℕ → Session C
  new_session id t conn now = record {
    id = id;
    user_id = "";
    room_instance_id = "";
    transport_type = t;
    conn = conn;
    state = pending;
    created_at = now;
  }

  -- The writes of the four methods.
  abbrev pub add_session : SessionManager C → String → Session C → SessionManager C
  add_session m id s = record m {
    heap = insert m.next s m.heap;
    next = m.next + 1;
    by_id = insert id m.next m.by_id;
  }

  abbrev pub attached_as : Session C → String → String → Session C
  attached_as s user room = record s { user_id = user; room_instance_id = room; state = attached }

  abbrev pub attach_session : SessionManager C → ℕ → Session C → String → String → SessionManager C
  attach_session m a s user room = record m {
    heap = insert a (attached_as s user room) m.heap;
    by_user = index_user user a m.by_user;
  }

  abbrev pub detached_from : Session C → Session C
  detached_from s = record s { user_id = ""; room_instance_id = ""; state = detached }

  abbrev pub detach_session : SessionManager C → ℕ → Session C → SessionManager C
  detach_session m a s = record m {
    heap = insert a (detached_from s) m.heap;
    by_user = unindex_user s.user_id m.by_user;
  }

  abbrev pub close_session : SessionManager C → String → ℕ → Session C → SessionManager C
  close_session m id a s = record m {
    heap = insert a (record s { state = closed }) m.heap;
    by_id = delete id m.by_id;
    by_user = unindex_user s.user_id m.by_user;
  }

  -- Register: a new object at a new address.
  unfoldable pub register :
      SessionManager C → String → TransportType → C → ℕ → Result SessionError (SessionManager C)
  register m id t conn now = elim (lookup id m.by_id) [
    | some _ ↦ err (already_registered id)
    | none ↦ ok (add_session m id (new_session id t conn now))
  ]

  -- The object behind an address; every address in an index has one.
  abbrev pub deref : SessionManager C → Option ℕ → Option (ℕ × Session C)
  deref m none = none
  deref m (some a) = elim (lookup a m.heap) [ none ↦ none | some s ↦ some (a, s) ]

  -- Get
  abbrev pub get : SessionManager C → String → Option (ℕ × Session C)
  get m id = deref m (lookup id m.by_id)

  -- GetByUser
  abbrev pub get_by_user : SessionManager C → String → Option (ℕ × Session C)
  get_by_user m user = deref m (lookup user m.by_user)

  -- The user has another active session, under another ID.
  abbrev pub taken : Option (ℕ × Session C) → String → Option String
  taken none id = none
  taken (some (_, existing)) id = if same existing.id id then none else some existing.id

  unfoldable pub blocker : SessionManager C → Session C → String → Option String
  blocker m s user = if is_empty user then none else taken (get_by_user m user) s.id

  unfoldable pub attach_pending :
      SessionManager C → ℕ → Session C → String → String → Result SessionError (SessionManager C)
  attach_pending m a s user room = elim (blocker m s user) [
    | some other ↦ err (user_active user other)
    | none ↦ ok (attach_session m a s user room)
  ]

  unfoldable pub attach_in :
      SessionState
      → SessionManager C
      → ℕ
      → Session C
      → String
      → String
      → Result SessionError (SessionManager C)
  unfolding attach_pending
  attach_in pending m a s user room = attach_pending m a s user room
  attach_in state m a s user room = err (cannot_attach state)

  -- Attach
  unfoldable pub attach :
      SessionManager C → String → String → String → Result SessionError (SessionManager C)
  unfolding attach_in
  attach m id user room = elim (get m id) [
    | none ↦ err (session_not_found id)
    | some (a, s) ↦ attach_in s.state m a s user room
  ]

  -- Detach
  unfoldable pub detach : SessionManager C → String → Result SessionError (SessionManager C)
  detach m id = elim (get m id) [
    | none ↦ err (session_not_found id)
    | some (a, s) ↦ if is_gone s.state then ok m else ok (detach_session m a s)
  ]

  -- Close, with the connection that it goes on to close, whose error it returns.
  unfoldable pub close :
      SessionManager C → String → Result SessionError (SessionManager C × Option C)
  close m id = elim (get m id) [
    | none ↦ err (session_not_found id)
    | some (a, s) ↦
        if is_closed s.state then ok (m, none) else ok (close_session m id a s, some s.conn)
  ]

  -- ActiveCount
  abbrev pub active_count : SessionManager C → ℕ
  active_count m = length m.by_id

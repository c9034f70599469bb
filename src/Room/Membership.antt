-- ===== src/Room/Membership.antt =====
-- The three views that a room keeps of who is attached (internal/game/room/room.go): activeSessions,
-- userSessionIndex and playerCount.
pub mod Commands
pub mod Ticks
pub mod Changes
use realtime_room_middleware.Base.{
  ℕ, ◌+◌, ◌%◌, ◌≡◌, ◌≢◌, refl, Bool, true, false, Option, none, some, List, [], ◌∷◌, String,
  is_empty, if◌then◌else◌, length, string_discrete, arith, ite,
}
use realtime_room_middleware.Base.Map.{
  Map, lookup, insert, delete, string_key, lookup-insert, lookup-delete, Distinct, insert-Distinct,
  delete-Distinct, length-insert_absent, length-delete_present,
}
use realtime_room_middleware.Base.Word.{inc32, dec32, u32_mod}
use realtime_room_middleware.Room.{SessionAttachment}

-- The user that a session was attached with: "" for none, as for no session.
abbrev pub user_of_entry : Option SessionAttachment → String
user_of_entry none = ""
user_of_entry (some att) = att.user_id

abbrev pub user_of : String → Map String SessionAttachment → String
user_of s m = user_of_entry (lookup s m)

abbrev pub attached_as : String → String → SessionAttachment
attached_as pid user = record { player_id = pid; user_id = user }

-- The index has exactly the users of the sessions.
abbrev pub IndexesUsers : Map String String → Map String SessionAttachment → Type 0
IndexesUsers idx m =
    ((u s : String) → lookup u idx ≡ some s → (user_of s m ≡ u) × (u ≢ ""))
    × ((u s : String) → u ≢ "" → user_of s m ≡ u → lookup u idx ≡ some s)

user_of-insert :
    (s s' : String) (att : SessionAttachment) (m : Map String SessionAttachment)
    → user_of s' (insert s att m) ≡ ite (string_discrete s s') att.user_id (user_of s' m)
user_of-insert s s' att m = ground (arith, lookup-insert s s' att m)

user_of-delete :
    (s s' : String) (m : Map String SessionAttachment)
    → user_of s' (delete s m) ≡ ite (string_discrete s s') "" (user_of s' m)
user_of-delete s s' m = ground (arith, lookup-delete s s' m)

-- A new session, attached under a user that is not in the room.
pub attach-IndexesUsers :
    (idx : Map String String) (m : Map String SessionAttachment) (s pid user : String)
    → lookup s m ≡ none
    → user ≢ ""
    → lookup user idx ≡ none
    → IndexesUsers idx m
    → IndexesUsers (insert user s idx) (insert s (attached_as pid user) m)
attach-IndexesUsers idx m s pid user fresh named new h = (
  λ u s' e.
      ground
        (arith, h.0 u s', lookup-insert user u s idx, user_of-insert s s' (attached_as pid user) m),
  λ u s' n e. ground (
    arith,
    h.1 u s',
    lookup-insert user u s idx,
    h.1 user s',
    user_of-insert s s' (attached_as pid user) m,
  ),
)

-- A new session with no user.
pub attach_unnamed-IndexesUsers :
    (idx : Map String String) (m : Map String SessionAttachment) (s pid : String)
    → lookup s m ≡ none
    → IndexesUsers idx m
    → IndexesUsers idx (insert s (attached_as pid "") m)
attach_unnamed-IndexesUsers idx m s pid fresh h = (
  λ u s' e. ground (arith, h.0 u s', user_of-insert s s' (attached_as pid "") m),
  λ u s' n e. ground (arith, h.1 u s', user_of-insert s s' (attached_as pid "") m),
)

-- A session that leaves takes its user out of the index.
pub detach-IndexesUsers :
    (idx : Map String String) (m : Map String SessionAttachment) (s : String)
    → user_of s m ≢ ""
    → IndexesUsers idx m
    → IndexesUsers (delete (user_of s m) idx) (delete s m)
detach-IndexesUsers idx m s named h = (
  λ u s' e. ground (arith, h.0 u s', lookup-delete (user_of s m) u idx, user_of-delete s s' m),
  λ u s' n e.
      ground (arith, h.1 u s', h.1 u s, lookup-delete (user_of s m) u idx, user_of-delete s s' m),
)

pub detach_unnamed-IndexesUsers :
    (idx : Map String String) (m : Map String SessionAttachment) (s : String)
    → user_of s m ≡ ""
    → IndexesUsers idx m
    → IndexesUsers idx (delete s m)
detach_unnamed-IndexesUsers idx m s unnamed h = (
  λ u s' e. ground (arith, h.0 u s', user_of-delete s s' m),
  λ u s' n e. ground (arith, h.1 u s', user_of-delete s s' m),
)

-- The counter is an int32.
pub inc32-length :
    (n : ℕ) (m : Map String SessionAttachment) (s : String) (att : SessionAttachment)
    → lookup s m ≡ none
    → n ≡ length m % u32_mod
    → inc32 n ≡ length (insert s att m) % u32_mod
inc32-length n m s att fresh h = ground (arith, length-insert_absent s att m)

pub dec32-length :
    (n : ℕ) (m : Map String SessionAttachment) (s : String) (att : SessionAttachment)
    → Distinct m
    → lookup s m ≡ some att
    → n ≡ length m % u32_mod
    → dec32 n ≡ length (delete s m) % u32_mod
dec32-length n m s att d e h = ground (arith, length-delete_present s att m)

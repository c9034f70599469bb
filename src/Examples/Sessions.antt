-- ===== src/Examples/Sessions.antt =====
-- Runs of the session registry; a connection is a number.
use realtime_room_middleware.Base.{
  ℕ, ◌≤◌, ◌≡◌, refl, List, [], ◌∷◌, string_discrete, ℕ_discrete, some,
}
use realtime_room_middleware.Base.Map.{lookup, insert, delete, string_key, nat_key}
use realtime_room_middleware.Session.{
  Session, new_session_manager, attached, detached, kcp, websocket, get, register, attach, detach,
  blocker,
}
use realtime_room_middleware.Session.Indexes.{Inv}
use realtime_room_middleware.Session.Steps.{
  SessionCall, registers, attaches, detaches, closes, after, run, run-Inv, run-one_session,
}
use realtime_room_middleware.Session.States.{Follows, rank, after-Follows, run-rank}
use realtime_room_middleware.Examples.Texts.{ann_named}

-- Two sessions, of which the second is refused the first's user.
abbrev two_calls : List (SessionCall ℕ)
two_calls =
    registers "s1" kcp 7 0
    ∷ registers "s2" websocket 8 1
    ∷ attaches "s1" "ann" "room"
    ∷ attaches "s2" "ann" "room"
    ∷ []

abbrev first_session : Session ℕ
first_session = record {
  id = "s1";
  user_id = "ann";
  room_instance_id = "room";
  transport_type = kcp;
  conn = 7;
  state = attached;
  created_at = 0;
}

first_found : get (run new_session_manager two_calls) "s1" ≡ some (0, first_session)
unfolding run after register attach blocker lookup insert string_discrete ℕ_discrete
    new_session_manager
first_found = refl

first_stored : lookup 0 (run new_session_manager two_calls).heap ≡ some first_session
unfolding run after register attach blocker lookup insert string_discrete ℕ_discrete
    new_session_manager
first_stored = refl

run-Inv_example : Inv (run new_session_manager two_calls)
run-Inv_example = run-Inv two_calls

run-one_session_example : first_session.id ≡ first_session.id
run-one_session_example =
    run-one_session two_calls "s1" "s1" 0 0 first_session first_session first_found first_found refl
      refl refl ann_named

after-Follows_example :
    Follows first_session
      (lookup 0 (after (run new_session_manager two_calls) (detaches "s1")).heap)
after-Follows_example =
    after-Follows (run new_session_manager two_calls) (detaches "s1") 0 first_session
      (run-Inv two_calls) first_stored

abbrev left_session : Session ℕ
left_session = record {
  id = "s1";
  user_id = "";
  room_instance_id = "";
  transport_type = kcp;
  conn = 7;
  state = detached;
  created_at = 0;
}

abbrev left_calls : List (SessionCall ℕ)
left_calls = registers "s1" kcp 7 0 ∷ attaches "s1" "ann" "room" ∷ detaches "s1" ∷ []

left_stored : lookup 0 (run new_session_manager left_calls).heap ≡ some left_session
unfolding run after register attach detach blocker lookup insert delete string_discrete ℕ_discrete
    new_session_manager
left_stored = refl

run-rank_example :
    (t : Session ℕ) × ((lookup 0
          (run
            (run new_session_manager left_calls)
            (attaches "s1" "ann" "room" ∷ closes "s1" ∷ [])).heap
        ≡ some t)
      × (t.id ≡ left_session.id)
      × (rank left_session.state ≤ rank t.state))
run-rank_example =
    run-rank (run new_session_manager left_calls) (attaches "s1" "ann" "room" ∷ closes "s1" ∷ []) 0
      left_session (run-Inv left_calls) left_stored

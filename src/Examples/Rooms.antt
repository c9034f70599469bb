-- ===== src/Examples/Rooms.antt =====
-- Runs of a room.
use realtime_room_middleware.Base.{
  ◌⊎◌, inr, ◌-◌, ◌++◌, ℕ, none, some, min, ◌≤◌, ◌≡◌, refl, List, [], ◌∷◌, String, string_discrete,
  arith, length,
}
use realtime_room_middleware.Base.Int.{pos, pos_part}
use realtime_room_middleware.Base.Map.{lookup, insert, string_key}
use realtime_room_middleware.Base.Word.{inc32}
use realtime_room_middleware.Object.{get}
use realtime_room_middleware.Object.Lock.Releases.{IsOf, Clears}
use realtime_room_middleware.Room.{
  Room, RoomSpec, RoomCommand, new_room, default_room_config, other, cmd_join, cmd_leave, running,
}
use realtime_room_middleware.Room.Commands.{
  handle_command, dispatch, handle_join, joined, handle_disconnect, handle_leave,
}
use realtime_room_middleware.Room.Tick.{release_expired_locks, tick}
use realtime_room_middleware.Room.Lifecycle.Runs.{
  RoomCall, call_start, call_enqueue, call_tick, call_stop, rank, run, run-bounded,
}
use realtime_room_middleware.Room.Cadence.Rate.{broadcasts, ratio, broadcasts-cadence}
use realtime_room_middleware.Room.Membership.{user_of}
use realtime_room_middleware.Room.Membership.Commands.{Consistent, handle_command-Consistent}
use realtime_room_middleware.Room.Membership.Ticks.{AllJoinFresh, tick_start, tick-Consistent}
use realtime_room_middleware.Room.Membership.Changes.{
  gone, player_gone, handle_disconnect-exact, handle_leave-exact, handle_join-miscounts,
}
use realtime_room_middleware.Room.Lifecycle.Offers.{offer, first, full_after, offer-first}
use realtime_room_middleware.Examples.Numbers.{whole_numbers}
use realtime_room_middleware.Examples.Texts.{ann, bob}

abbrev pub spec : RoomSpec ℕ
spec = record {
  logical_room_id = "hall";
  instance_id = "hall-0001";
  config = default_room_config whole_numbers;
}

abbrev pub empty_room : Room ℕ
empty_room = new_room whole_numbers spec

abbrev joins : String → RoomCommand ℕ
joins session = record {
  kind = cmd_join;
  session_id = session;
  player_id = "p1";
  user_id = ann;
  payload = other;
  timestamp = 3;
}

abbrev leaves_room : RoomCommand ℕ
leaves_room = record (joins "s1") { kind = cmd_leave }

empty_room-Consistent : Consistent empty_room
unfolding new_room lookup
empty_room-Consistent =
    (tt, refl, (λ u s e. absurd (ground arith), λ u s n e. absurd (ground arith)), λ s e. refl)

-- ann, attached by session s1.
abbrev ann_room : Room ℕ
ann_room = handle_command whole_numbers empty_room (joins "s1") 1 9

ann_room-Consistent : Consistent ann_room
unfolding new_room lookup
ann_room-Consistent =
    handle_command-Consistent whole_numbers empty_room (joins "s1") 1 9 (λ e. refl)
      empty_room-Consistent

-- A room whose queue holds the join.
abbrev waiting_room : Room ℕ
waiting_room = record empty_room { commands = joins "s1" ∷ [] }

waiting_room-Consistent : Consistent waiting_room
waiting_room-Consistent = empty_room-Consistent

waiting_join_fresh :
    AllJoinFresh whole_numbers
      (tick_start whole_numbers waiting_room 9)
      waiting_room.commands
      (inc32 waiting_room.current_tick)
      9
unfolding new_room lookup release_expired_locks
waiting_join_fresh = (λ e. refl, tt)

tick-Consistent_example : Consistent (tick whole_numbers waiting_room 9).1
tick-Consistent_example =
    tick-Consistent whole_numbers waiting_room 9 waiting_join_fresh waiting_room-Consistent

handle_disconnect-exact_example :
    let r = handle_disconnect ann_room (joins "s1") in
    (lookup "s1" r.active_sessions ≡ gone "s1" "s1" (lookup "s1" ann_room.active_sessions))
    × (lookup "s1" r.snapshot_cache ≡ gone "s1" "s1" (lookup "s1" ann_room.snapshot_cache))
    × (lookup ann r.user_session_index
        ≡ gone (user_of "s1" ann_room.active_sessions) ann (lookup ann ann_room.user_session_index))
    × (lookup "p1" r.players
        ≡ player_gone
            (lookup "s1" ann_room.active_sessions)
            (λ att. att.player_id)
            "p1"
            (lookup "p1" ann_room.players))
    × Clears (IsOf "s1") (get ann_room.locks.objects "door") (get r.locks.objects "door")
handle_disconnect-exact_example =
    handle_disconnect-exact ann_room (joins "s1") "s1" ann "p1" "door" ann_room-Consistent

handle_leave-exact_example :
    let r = handle_leave ann_room leaves_room in
    (lookup "s1" r.active_sessions ≡ gone "s1" "s1" (lookup "s1" ann_room.active_sessions))
    × (lookup "s1" r.snapshot_cache ≡ gone "s1" "s1" (lookup "s1" ann_room.snapshot_cache))
    × (lookup ann r.user_session_index
        ≡ gone (user_of "s1" ann_room.active_sessions) ann (lookup ann ann_room.user_session_index))
    × (lookup "p1" r.players
        ≡ player_gone
            (lookup "s1" ann_room.active_sessions)
            (λ _. "p1")
            "p1"
            (lookup "p1" ann_room.players))
    × Clears (IsOf "s1") (get ann_room.locks.objects "door") (get r.locks.objects "door")
handle_leave-exact_example =
    handle_leave-exact ann_room leaves_room "s1" ann "p1" "door" ann_room-Consistent

ann_attached : user_of "s1" ann_room.active_sessions ≡ ann
unfolding new_room handle_command dispatch handle_join joined lookup insert string_discrete
ann_attached = refl

abbrev room_calls : List (RoomCall ℕ)
room_calls = call_start ∷ call_enqueue (joins "s1") ∷ call_tick 9 ∷ []

run-bounded_example :
    let r = run whole_numbers (run whole_numbers empty_room room_calls) (call_stop ∷ []) in
    (length r.commands ≤ pos_part empty_room.config.command_queue_size)
    × (r.config ≡ empty_room.config)
    × (rank (run whole_numbers empty_room room_calls).status ≤ rank r.status)
run-bounded_example = run-bounded whole_numbers spec room_calls (call_stop ∷ [])

abbrev open_room : Room ℕ
open_room = record waiting_room { status = running }

-- Two more commands, of which the queue takes one.
abbrev small_room : Room ℕ
small_room = record open_room { config = record open_room.config { command_queue_size = pos 2 } }

abbrev two_joins : List (RoomCommand ℕ)
two_joins = joins "s2" ∷ joins "s3" ∷ []

offer-first_example :
    let left = pos_part small_room.config.command_queue_size - length small_room.commands in
    offer small_room two_joins ≡ (
      record small_room { commands = small_room.commands ++ first left two_joins },
      full_after left two_joins,
    )
offer-first_example = offer-first small_room two_joins refl

broadcasts-cadence_example :
    (broadcasts (pos 20) (pos 10) 8 (ratio 20 10) ≡ 1)
    × (min 10 20 ≤ broadcasts (pos 20) (pos 10) 8 20)
broadcasts-cadence_example = broadcasts-cadence 20 10 7 (omega arith) (omega arith) (omega arith)

abbrev bob_joins : RoomCommand ℕ
bob_joins = record (joins "s1") { user_id = bob }

ann_session :
    lookup "s1" ann_room.active_sessions ≡ some (record { player_id = "p1"; user_id = ann })
unfolding new_room handle_command dispatch handle_join joined lookup insert string_discrete
ann_session = refl

bob_absent : lookup bob ann_room.user_session_index ≡ none
unfolding new_room handle_command dispatch handle_join joined lookup insert string_discrete
bob_absent = refl

handle_join-miscounts_example :
    let r = handle_join whole_numbers ann_room bob_joins in
    (r.player_count ≡ inc32 ann_room.player_count)
    × (length r.active_sessions ≡ length ann_room.active_sessions)
    × ((ann ≡ bob) ⊎ (lookup ann r.user_session_index ≡ lookup ann ann_room.user_session_index))
handle_join-miscounts_example =
    handle_join-miscounts whole_numbers ann_room bob_joins
      (record { player_id = "p1"; user_id = ann }) ann_session (inr bob_absent)

-- ===== src/Middleware/Encoding.antt =====
-- Whatever clients send, every delta that a room broadcasts is one that the protocol encodes
-- (internal/app/realtime, internal/game/handler, internal/game/room, internal/game/bridge and
-- internal/protocol together).
use realtime_room_middleware.Base.{
  ℕ, ◌≡◌, subst, false, none, some, List, [], ◌∷◌, String, inl, inr, Option-cases, ltb, length,
  Bool-cases, All,
}
use realtime_room_middleware.Base.Floats.{Floats}
use realtime_room_middleware.Base.Int.{pos_part}
use realtime_room_middleware.Base.Map.{Map, lookup, nat_key, string_key, Each-lookup, Each-insert}
use realtime_room_middleware.Delta.{PlayerDelta, DeltaBatch, is_empty_delta}
use realtime_room_middleware.Protocol.Messages.{validate_delta}
use realtime_room_middleware.Protocol.Formats.{Serials}
use realtime_room_middleware.Room.{
  Room, RoomSpec, RoomCommand, RoomStatus, new_room, created, running, draining, closed,
}
use realtime_room_middleware.Room.Tick.{tick}
use realtime_room_middleware.Room.Lifecycle.{
  start, start_from, stop, stop_from, finish_stop, enqueue, enqueue_in, send,
}
use realtime_room_middleware.Room.Lifecycle.Runs.{
  RoomCall, call_start, call_stop, call_finish_stop, call_enqueue, call_tick, or_same, after,
}
use realtime_room_middleware.Room.Finite.{HasLiterals, IsClean}
use realtime_room_middleware.Room.Finite.Batches.{IsSound, DeltaIsSound, tick-IsSound}
use realtime_room_middleware.Handler.{RoomStore, SessionRoomResolver}
use realtime_room_middleware.Receive.{SessionResolver}
use realtime_room_middleware.Receive.Queues.{RoomsAreSound, enqueued-IsSound, handle_packet_sound}
use realtime_room_middleware.Bridge.{convert_player_delta}
use realtime_room_middleware.Bridge.Delivery.{validate_delta-convert_player_delta}
use realtime_room_middleware.Middleware.{
  Event, arrives, calls, opened, EventIsProper, call_room, step, run,
}

module _ (fl : Floats) where
  open fl use {F32}

  new_room-IsSound : (spec : RoomSpec F32) → IsSound fl (new_room fl spec)
  unfolding new_room
  new_room-IsSound spec = record { players = tt; snapshots = tt; queue = tt }

  opened_sound : (specs : Map ℕ (RoomSpec F32)) → RoomsAreSound fl (opened fl specs)
  opened_sound [] = tt
  opened_sound ((address, spec) ∷ specs) = (new_room-IsSound spec, opened_sound specs)

  restatus-IsSound :
      (r : Room F32) (status : RoomStatus)
      → IsSound fl r
      → IsSound fl (record r { status = status })
  restatus-IsSound r status h = record {
    players = h.players;
    snapshots = h.snapshots;
    queue = h.queue;
  }

  start-IsSound :
      (r : Room F32) (status : RoomStatus)
      → IsSound fl r
      → IsSound fl (or_same r (start_from r status)) × IsSound fl (stop_from r status)
  unfolding start_from stop_from
  start-IsSound r created h = (restatus-IsSound r running h, restatus-IsSound r closed h)
  start-IsSound r running h = (h, restatus-IsSound r draining h)
  start-IsSound r draining h = (h, restatus-IsSound r draining h)
  start-IsSound r closed h = (h, h)

  send-IsSound :
      (r : Room F32) (cmd : RoomCommand F32)
      → IsClean fl cmd
      → IsSound fl r
      → IsSound fl (or_same r (send r cmd))
  unfolding send
  send-IsSound r cmd clean h =
      elim (Bool-cases (ltb (length r.commands) (pos_part r.config.command_queue_size))) [
        | inl e ↦ rw e (enqueued-IsSound fl r cmd clean h)
        | inr e ↦ rw e h
      ]

  enqueue_in-IsSound :
      (r : Room F32) (cmd : RoomCommand F32) (status : RoomStatus)
      → IsClean fl cmd
      → IsSound fl r
      → IsSound fl (or_same r (enqueue_in r cmd status))
  unfolding enqueue_in
  enqueue_in-IsSound r cmd running clean h = send-IsSound r cmd clean h
  enqueue_in-IsSound r cmd created clean h = h
  enqueue_in-IsSound r cmd draining clean h = h
  enqueue_in-IsSound r cmd closed clean h = h

  module _ (lits : HasLiterals fl) where
    after-IsSound :
        (r : Room F32) (address : ℕ) (c : RoomCall F32)
        → EventIsProper fl (calls address c)
        → IsSound fl r
        → IsSound fl (after fl r c)
    unfolding after start stop finish_stop enqueue
    after-IsSound r address call_start proper h = (start-IsSound r r.status h).0
    after-IsSound r address call_stop proper h = (start-IsSound r r.status h).1
    after-IsSound r address call_finish_stop proper h = restatus-IsSound r closed h
    after-IsSound r address (call_enqueue cmd) proper h = enqueue_in-IsSound r cmd r.status proper h
    after-IsSound r address (call_tick now) proper h = (tick-IsSound fl r now lits h).1

    call_room_sound :
        (rooms : RoomStore F32) (address : ℕ) (c : RoomCall F32)
        → EventIsProper fl (calls address c)
        → RoomsAreSound fl rooms
        → RoomsAreSound fl (call_room fl rooms address c)
    unfolding call_room
    call_room_sound rooms address c proper h = elim (Option-cases (lookup address rooms)) [
      | inl e ↦ rw (e, call_room) h
      | inr (r, e) ↦
          rw (e, call_room)
            (Each-insert (λ _ r. IsSound fl r) address (after fl r c) rooms h
              (after-IsSound r address c proper
                (Each-lookup (λ _ r. IsSound fl r) address r rooms h e)))
    ]

    module _ (s : Serials F32) (resolve : SessionRoomResolver) (identify : SessionResolver) where
      step_sound :
          (rooms : RoomStore F32) (e : Event F32)
          → EventIsProper fl e
          → RoomsAreSound fl rooms
          → RoomsAreSound fl (step fl s resolve identify rooms e)
      unfolding step
      step_sound rooms (arrives session bytes millis now) proper h =
          handle_packet_sound fl lits s resolve identify rooms session bytes millis now proper h
      step_sound rooms (calls address c) proper h = call_room_sound rooms address c proper h

      pub run_sound :
          (rooms : RoomStore F32) (es : List (Event F32))
          → All (EventIsProper fl) es
          → RoomsAreSound fl rooms
          → RoomsAreSound fl (run fl s resolve identify rooms es)
      unfolding run
      run_sound rooms [] proper h = h
      run_sound rooms (e ∷ es) proper h =
          run_sound (step fl s resolve identify rooms e) es proper.1 (step_sound rooms e proper.0 h)

      -- Start any rooms, let any packets arrive and let any calls be made on the rooms, where the clock is
      -- past 1970 and what the server itself enqueues names a player and holds finite numbers, a
      -- rotation that is not zero and a positive timestamp. If 0 and 1 are finite and 1 is not 0, then
      -- in every room that there is, each delta which its next tick broadcasts and which is not empty
      -- passes the checks that the protocol makes before it encodes the delta.
      pub run-encodes :
          (specs : Map ℕ (RoomSpec F32)) (es : List (Event F32)) (address : ℕ) (r : Room F32)
          (now : ℕ) (session : String) (b : DeltaBatch F32) (d : PlayerDelta F32)
          → All (EventIsProper fl) es
          → lookup address (run fl s resolve identify (opened fl specs) es) ≡ some r
          → lookup session (tick fl r now).0 ≡ some b
          → b.player_delta ≡ some d
          → is_empty_delta d ≡ false
          → validate_delta fl (convert_player_delta (some d)) ≡ none
      run-encodes specs es address r now session b d proper found sent has full =
          let rooms = run fl s resolve identify (opened fl specs) es in
          let sound =
            Each-lookup (λ _ r. IsSound fl r) address r rooms
              (run_sound (opened fl specs) es proper (opened_sound specs)) found in
          let batches = (tick-IsSound fl r now lits sound).0 in
          let entry =
            Each-lookup (λ _ b. DeltaIsSound fl b.player_delta) session b (tick fl r now).0 batches
              sent in
          validate_delta-convert_player_delta fl d (subst (DeltaIsSound fl) has entry) full

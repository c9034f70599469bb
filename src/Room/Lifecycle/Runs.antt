-- ===== src/Room/Lifecycle/Runs.antt =====
-- Any sequence of calls on a room: the status machine and the bound on the command queue.
use realtime_room_middleware.Base.{
  ℕ, ◌+◌, ◌≤◌, ◌<◌, ◌≡◌, ◌↔◌, refl, ap, subst, sym, ◌∙◌, List, [], ◌∷◌, ◌++◌, length, arith,
}
use realtime_room_middleware.Base.Floats.{Floats}
use realtime_room_middleware.Base.Int.{pos_part}
use realtime_room_middleware.Base.Result.{Result, ok, err}
use realtime_room_middleware.Room.{
  Room, RoomSpec, RoomCommand, RoomStatus, created, running, draining, closed, new_room,
}
use realtime_room_middleware.Room.Tick.{tick}
use realtime_room_middleware.Room.Lifecycle.{
  RoomError, start, start_from, stop, stop_from, finish_stop, enqueue, enqueue_in, send,
}
use realtime_room_middleware.Room.Lifecycle.Frame.{tick-outer}

-- The calls that goroutines make on one room, in the order in which they take effect.
pub data RoomCall (F : Type 0) : Type 0 where
  call_start : RoomCall F
  call_stop : RoomCall F
  call_finish_stop : RoomCall F
  call_enqueue : RoomCommand F → RoomCall F
  call_tick : ℕ → RoomCall F

-- A call that fails leaves the room as it was.
abbrev pub or_same : {F : Type 0} → Room F → Result RoomError (Room F) → Room F
or_same r (ok r') = r'
or_same r (err _) = r

abbrev pub rank : RoomStatus → ℕ
rank created = 0
rank running = 1
rank draining = 2
rank closed = 3

abbrev pub Bounded : {F : Type 0} → Room F → Type 0
Bounded r = length r.commands ≤ pos_part r.config.command_queue_size

module _ {F : Type 0} where
  pub length-snoc :
      (xs : List (RoomCommand F)) (x : RoomCommand F) → length (xs ++ x ∷ []) ≡ length xs + 1
  length-snoc [] x = omega arith
  length-snoc (y ∷ xs) x = ground (arith, length-snoc xs x)

  -- What a call may do to the queue and the status.
  abbrev Fine : Room F → Room F → Type 0
  Fine r r' = (Bounded r → Bounded r') × (rank r.status ≤ rank r'.status) × (r'.config ≡ r.config)

  start_from-Fine :
      (r : Room F) (s : RoomStatus) → s ≡ r.status → Fine r (or_same r (start_from r s))
  unfolding start_from
  start_from-Fine r created e = (λ h. h, ground arith, refl)
  start_from-Fine r running e = (λ h. h, omega arith, refl)
  start_from-Fine r draining e = (λ h. h, omega arith, refl)
  start_from-Fine r closed e = (λ h. h, omega arith, refl)

  stop_from-Fine : (r : Room F) (s : RoomStatus) → s ≡ r.status → Fine r (stop_from r s)
  unfolding stop_from
  stop_from-Fine r created e = (λ h. h, ground arith, refl)
  stop_from-Fine r running e = (λ h. h, ground arith, refl)
  stop_from-Fine r draining e = (λ h. h, ground arith, refl)
  stop_from-Fine r closed e = (λ h. h, omega arith, refl)

  finish_stop-Fine : (r : Room F) → Fine r (finish_stop r)
  unfolding finish_stop
  finish_stop-Fine r = (λ h. h, ground arith, refl)

  send-Fine : (r : Room F) (cmd : RoomCommand F) → Fine r (or_same r (send r cmd))
  unfolding send
  send-Fine r cmd = ground (arith, length-snoc r.commands cmd)

  enqueue_in-Fine :
      (r : Room F) (cmd : RoomCommand F) (s : RoomStatus) → Fine r (or_same r (enqueue_in r cmd s))
  unfolding enqueue_in
  enqueue_in-Fine r cmd created = (λ h. h, omega arith, refl)
  enqueue_in-Fine r cmd running = send-Fine r cmd
  enqueue_in-Fine r cmd draining = (λ h. h, omega arith, refl)
  enqueue_in-Fine r cmd closed = (λ h. h, omega arith, refl)

module _ (fl : Floats) where
  open fl use {F32}

  unfoldable pub after : Room F32 → RoomCall F32 → Room F32
  after r call_start = or_same r (start r)
  after r call_stop = stop r
  after r call_finish_stop = finish_stop r
  after r (call_enqueue cmd) = or_same r (enqueue r cmd)
  after r (call_tick now) = (tick fl r now).1

  unfoldable pub run : Room F32 → List (RoomCall F32) → Room F32
  unfolding after
  run r [] = r
  run r (c ∷ cs) = run (after r c) cs

  tick-Fine : (r : Room F32) (now : ℕ) → Fine r (tick fl r now).1
  tick-Fine r now =
      let e = tick-outer fl r now in
      (
        λ h. subst (λ o. length o.0 ≤ pos_part o.2.command_queue_size) (sym e) (omega arith),
        subst (λ o. rank r.status ≤ rank o.1) (sym e) (omega arith),
        ap (λ o. o.2) e,
      )

  after-Fine : (r : Room F32) (c : RoomCall F32) → Fine r (after r c)
  unfolding after start stop enqueue
  after-Fine r call_start = start_from-Fine r r.status refl
  after-Fine r call_stop = stop_from-Fine r r.status refl
  after-Fine r call_finish_stop = finish_stop-Fine r
  after-Fine r (call_enqueue cmd) = enqueue_in-Fine r cmd r.status
  after-Fine r (call_tick now) = tick-Fine r now

  run-Fine : (r : Room F32) (cs : List (RoomCall F32)) → Fine r (run r cs)
  unfolding run
  run-Fine r [] = (λ h. h, omega arith, refl)
  run-Fine r (c ∷ cs) =
      let a = after-Fine r c in
      let b = run-Fine (after r c) cs in
      (λ h. b.0 (a.0 h), ground (arith, a.1, b.1), ground (arith, a.2, b.2))

  -- After any calls on a new room, the queue holds at most `CommandQueueSize` commands, the
  -- configuration is the one that `newRoom` made, and the status is not earlier in the order created,
  -- running, draining, closed than it was after the first of them: it never goes back.
  pub run-bounded :
      (spec : RoomSpec F32) (first rest : List (RoomCall F32))
      → (length (run (run (new_room fl spec) first) rest).commands
          ≤ pos_part (new_room fl spec).config.command_queue_size)
        × ((run (run (new_room fl spec) first) rest).config ≡ (new_room fl spec).config)
        × (rank (run (new_room fl spec) first).status
            ≤ rank (run (run (new_room fl spec) first) rest).status)
  unfolding new_room
  run-bounded spec first rest =
      let a = run-Fine (new_room fl spec) first in
      let b = run-Fine (run (new_room fl spec) first) rest in
      (
        subst
            (λ c.
              length (run (run (new_room fl spec) first) rest).commands
              ≤ pos_part c.command_queue_size)
            (b.2 ∙ a.2) (b.0 (a.0 (omega arith))),
        b.2 ∙ a.2,
        b.1,
      )

module _ {F : Type 0} where
  -- What Enqueue does to the room if it is accepted.
  abbrev pub enqueued : Room F → RoomCommand F → Room F
  enqueued r cmd = record r { commands = r.commands ++ cmd ∷ [] }

  enqueue_in-Accepts :
      (r r' : Room F) (cmd : RoomCommand F) (s : RoomStatus)
      → (enqueue_in r cmd s ≡ ok r') ↔ (
          (s ≡ running)
          × (length r.commands < pos_part r.config.command_queue_size)
          × (r' ≡ enqueued r cmd))
  unfolding enqueue_in send
  enqueue_in-Accepts r r' cmd created = ground arith
  enqueue_in-Accepts r r' cmd running = ground arith
  enqueue_in-Accepts r r' cmd draining = ground arith
  enqueue_in-Accepts r r' cmd closed = ground arith

  -- Enqueue returns a room exactly when the room is running and the queue is not full, and that room
  -- has the command at the end of the queue and is the same else.
  pub enqueue_iff :
      (r r' : Room F) (cmd : RoomCommand F)
      → (enqueue r cmd ≡ ok r') ↔ (
          (r.status ≡ running)
          × (length r.commands < pos_part r.config.command_queue_size)
          × (r' ≡ enqueued r cmd))
  unfolding enqueue
  enqueue_iff r r' cmd = enqueue_in-Accepts r r' cmd r.status

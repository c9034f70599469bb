-- ===== src/Room/Lifecycle/Offers.antt =====
-- What a burst of commands leaves in the queue of a running room (internal/game/room/room.go, Enqueue).
use realtime_room_middleware.Base.{
  ℕ, zero, suc, ◌-◌, ◌≤◌, ◌≡◌, refl, sym, ap, ◌∙◌, Option, none, some, List, [], ◌∷◌, ◌++◌, length,
  arith,
}
use realtime_room_middleware.Base.Int.{pos_part}
use realtime_room_middleware.Base.Result.{Result, ok, err}
use realtime_room_middleware.Room.{Room, RoomCommand, running}
use realtime_room_middleware.Room.Lifecycle.{
  RoomError, command_queue_full, enqueue, enqueue_in, send,
}
use realtime_room_middleware.Room.Lifecycle.Runs.{or_same, enqueued, enqueue_iff, length-snoc}

module _ {F : Type 0} where
  -- The error that a call returned, if any.
  abbrev pub error_of : Result RoomError (Room F) → Option RoomError
  error_of (ok r) = none
  error_of (err e) = some e

  -- Commands that are enqueued one after the other: the room then, and what each Enqueue returned.
  unfoldable pub offer : Room F → List (RoomCommand F) → Room F × List (Option RoomError)
  offer r [] = (r, [])
  offer r (cmd ∷ cmds) =
      let answer = enqueue r cmd in
      let (last, errors) = offer (or_same r answer) cmds in (last, error_of answer ∷ errors)

  -- The first `n` commands.
  abbrev pub first : ℕ → List (RoomCommand F) → List (RoomCommand F)
  first n [] = []
  first zero (cmd ∷ cmds) = []
  first (suc n) (cmd ∷ cmds) = cmd ∷ first n cmds

  -- No error for the first `n` commands, and a full queue for the others.
  abbrev pub full_after : ℕ → List (RoomCommand F) → List (Option RoomError)
  full_after n [] = []
  full_after zero (cmd ∷ cmds) = some command_queue_full ∷ full_after zero cmds
  full_after (suc n) (cmd ∷ cmds) = none ∷ full_after n cmds

  abbrev with_commands : Room F → List (RoomCommand F) → Room F
  with_commands r cmds = record r { commands = cmds }

  append-snoc :
      (xs ys : List (RoomCommand F)) (y : RoomCommand F) → (xs ++ y ∷ []) ++ ys ≡ xs ++ y ∷ ys
  append-snoc [] ys y = refl
  append-snoc (x ∷ xs) ys y = ap (λ zs. x ∷ zs) (append-snoc xs ys y)

  append-nil : (xs : List (RoomCommand F)) → xs ++ [] ≡ xs
  append-nil [] = refl
  append-nil (x ∷ xs) = ap (λ zs. x ∷ zs) (append-nil xs)

  first-zero : (cmds : List (RoomCommand F)) → first zero cmds ≡ []
  first-zero [] = refl
  first-zero (cmd ∷ cmds) = refl

  enqueue_full :
      (r : Room F) (cmd : RoomCommand F)
      → r.status ≡ running
      → pos_part r.config.command_queue_size ≤ length r.commands
      → enqueue r cmd ≡ err command_queue_full
  unfolding enqueue enqueue_in send
  enqueue_full r cmd live full = rw live (ground arith)

  offer-room_left :
      (r : Room F) (cmds : List (RoomCommand F)) (n : ℕ)
      → r.status ≡ running
      → n ≡ pos_part r.config.command_queue_size - length r.commands
      → offer r cmds ≡ (with_commands r (r.commands ++ first n cmds), full_after n cmds)
  unfolding offer
  offer-room_left r [] n live left = ap (λ q. (with_commands r q, [])) (sym (append-nil r.commands))
  offer-room_left r (cmd ∷ cmds) zero live left =
      let e : enqueue r cmd ≡ err command_queue_full = enqueue_full r cmd live (omega arith) in
      let rest = offer-room_left r cmds zero live left in
      ap (λ a. ((offer (or_same r a) cmds).0, error_of a ∷ (offer (or_same r a) cmds).1)) e
      ∙ ap (λ q. (q.0, some command_queue_full ∷ q.1)) rest
      ∙ ap
          (λ xs.
            (with_commands r (r.commands ++ xs), some command_queue_full ∷ full_after zero cmds))
          (first-zero cmds)
  offer-room_left r (cmd ∷ cmds) (suc n) live left =
      let e : enqueue r cmd ≡ ok (enqueued r cmd) =
        (enqueue_iff r (enqueued r cmd) cmd).1 (live, omega arith, refl) in
      let rest =
        offer-room_left (enqueued r cmd) cmds n live (omega (arith, length-snoc r.commands cmd)) in
      ap (λ a. ((offer (or_same r a) cmds).0, error_of a ∷ (offer (or_same r a) cmds).1)) e
      ∙ ap (λ q. (q.0, none ∷ q.1)) rest
      ∙ ap (λ xs. (with_commands r xs, none ∷ full_after n cmds))
          (append-snoc r.commands (first n cmds) cmd)

  -- When commands are enqueued one after the other in a running room, exactly the first of them that
  -- fit are accepted, and stand in that order at the end of the queue; each of the others gets the
  -- error of a full queue; and nothing else of the room changes.
  pub offer-first :
      (r : Room F) (cmds : List (RoomCommand F))
      → r.status ≡ running
      → let left = pos_part r.config.command_queue_size - length r.commands in
        offer r cmds ≡ (record r { commands = r.commands ++ first left cmds }, full_after left cmds)
  offer-first r cmds live = offer-room_left r cmds _ live refl

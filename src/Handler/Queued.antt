-- ===== src/Handler/Queued.antt =====
-- What one envelope leads to: a refusal that touches no room, or one command at the end of the queue of
-- the session's room (internal/game/handler/handler.go).
use realtime_room_middleware.Base.{
  ℕ, ◌<◌, ◌≡◌, ◌⊎◌, inl, inr, refl, ap, ◌≢◌, true, false, none, some, length, is_empty, arith,
  Option-cases, Bool-cases, subst, sym, ◌==◌,
}
use realtime_room_middleware.Base.Floats.{Floats}
use realtime_room_middleware.Base.Int.{ℤ, pos_part}
use realtime_room_middleware.Base.Map.{lookup, insert, nat_key}
use realtime_room_middleware.Base.Result.{Result, ok, err}
use realtime_room_middleware.Protocol.{
  Envelope, is_client_to_server, type_player_input, type_player_transform_update,
}
use realtime_room_middleware.Protocol.Messages.{PlayerInput, PlayerTransformUpdate}
use realtime_room_middleware.Protocol.Wrapping.{decode_message}
use realtime_room_middleware.Protocol.Formats.{Serials, input_format, transform_update_format}
use realtime_room_middleware.Room.{Room, RoomCommand, running}
use realtime_room_middleware.Room.Lifecycle.{enqueue, enqueue_in, send}
use realtime_room_middleware.Room.Lifecycle.Runs.{enqueued, enqueue_iff}
use realtime_room_middleware.Handler.{
  PacketContext, HandlePacketResult, RoomStore, SessionRoomResolver, enqueue_in_room, enqueue_at,
  resolve_and_enqueue, submit, input_command, transform_command, handle_player_input,
  handle_player_transform_update, handle_envelope,
}

pub Result-cases :
    {E A : Type 0} (r : Result E A) → ((a : A) × (r ≡ ok a)) ⊎ ((e : E) × (r ≡ err e))
Result-cases (ok a) = inl (a, refl)
Result-cases (err e) = inr (e, refl)

module _ {F : Type 0} where
  -- The room that the session is in runs and has room in its queue, and gets the command, last.
  pub record Enqueues (resolve : SessionRoomResolver) (rooms : RoomStore F) (ctx : PacketContext)
      (cmd : RoomCommand F) (rooms' : RoomStore F) : Type 0 where
    pub address : ℕ
    pub target : Room F
    pub named : is_empty ctx.player_id ≡ false
    pub resolved : resolve ctx.session_id ≡ ok (some address)
    pub found : lookup address rooms ≡ some target
    pub live : target.status ≡ running
    pub room_left : length target.commands < pos_part target.config.command_queue_size
    pub changed : rooms' ≡ insert address (enqueued target cmd) rooms

  enqueue-ok : (r r' : Room F) (cmd : RoomCommand F) → enqueue r cmd ≡ ok r' → r' ≡ enqueued r cmd
  unfolding enqueue enqueue_in send
  enqueue-ok r r' cmd h = ground arith

  -- What a submission leads to: the command is queued and the result says handled, or nothing changes
  -- and the result has an error.
  abbrev pub Outcome :
      SessionRoomResolver
      → RoomStore F
      → PacketContext
      → RoomCommand F
      → HandlePacketResult × RoomStore F
      → Type 0
  Outcome resolve rooms ctx cmd (result, rooms') =
      ((result.handled ≡ true) × (result.error ≡ none) × Enqueues resolve rooms ctx cmd rooms')
      ⊎ ((result.handled ≡ false) × (result.error ≢ none) × (rooms' ≡ rooms))

  submit-Outcome :
      (resolve : SessionRoomResolver) (rooms : RoomStore F) (ctx : PacketContext) (t : ℕ)
      (cmd : RoomCommand F)
      → Outcome resolve rooms ctx cmd (submit resolve rooms ctx t cmd)
  unfolding submit resolve_and_enqueue enqueue_at enqueue_in_room
  submit-Outcome resolve rooms ctx t cmd = elim (Bool-cases (is_empty ctx.player_id)) [
    | inl e ↦ rw e (inr (refl, ground arith, refl))
    | inr named ↦ elim (Result-cases (resolve ctx.session_id)) [
      | inr (e, r) ↦ rw (named, r, resolve_and_enqueue) (inr (refl, ground arith, refl))
      | inl (none, r) ↦ rw (named, r, resolve_and_enqueue) (inr (refl, ground arith, refl))
      | inl (some address, r) ↦ elim (Option-cases (lookup address rooms)) [
        | inl l ↦ rw (named, r, resolve_and_enqueue, l, enqueue_at) (inr (refl, ground arith, refl))
        | inr (target, l) ↦ elim (Result-cases (enqueue target cmd)) [
          | inr (e, q) ↦
              rw (named, r, resolve_and_enqueue, l, enqueue_at, q, enqueue_in_room)
                (inr (refl, ground arith, refl))
          | inl (target', q) ↦
              let same_room = enqueue-ok target target' cmd q in
              let live = (enqueue_iff target target' cmd).0 q in
              let e : Enqueues resolve rooms ctx cmd (insert address target' rooms) = record {
                address = address;
                target = target;
                named = named;
                resolved = r;
                found = l;
                live = live.0;
                room_left = live.1;
                changed = ap (λ x. insert address x rooms) same_room;
              } in
              rw (named, r, resolve_and_enqueue, l, enqueue_at, q, enqueue_in_room)
                (inl (refl, refl, e))
        ]
      ]
    ]
  ]

  -- When the session's room takes the command, the submission succeeds.
  Enqueues-submit :
      (resolve : SessionRoomResolver) (rooms rooms' : RoomStore F) (ctx : PacketContext) (t : ℕ)
      (cmd : RoomCommand F)
      → Enqueues resolve rooms ctx cmd rooms'
      → submit resolve rooms ctx t cmd
        ≡ (record { message_type = t; handled = true; error = none }, rooms')
  unfolding submit resolve_and_enqueue enqueue_at enqueue_in_room
  Enqueues-submit resolve rooms rooms' ctx t cmd e =
      let q = (enqueue_iff e.target (enqueued e.target cmd) cmd).1 (e.live, e.room_left, refl) in
      ground (arith, e.named, e.resolved, e.found, q, e.changed)

module _ (fl : Floats) (s : Serials fl.F32) where
  open fl use {F32}

  -- The command that an envelope stands for: PlayerInput (4) and PlayerTransformUpdate (6) have one, if
  -- their body decodes.
  abbrev pub Translates : PacketContext → Envelope → ℤ → ℕ → RoomCommand F32 → Type 0
  Translates ctx env millis now cmd =
      ((msg : PlayerInput F32) × (env.message_type ≡ type_player_input)
        × (decode_message (input_format fl s) env.body ≡ ok msg)
        × (cmd ≡ input_command fl ctx msg millis now))
      ⊎ ((msg : PlayerTransformUpdate F32) × (env.message_type ≡ type_player_transform_update)
          × (decode_message (transform_update_format fl s) env.body ≡ ok msg)
          × (cmd ≡ transform_command fl ctx msg now))

  abbrev pub Handled :
      SessionRoomResolver
      → RoomStore F32
      → PacketContext
      → Envelope
      → ℤ
      → ℕ
      → HandlePacketResult × RoomStore F32
      → Type 0
  Handled resolve rooms ctx env millis now (result, rooms') =
      ((cmd : RoomCommand F32) × (result.error ≡ none)
        × Translates ctx env millis now cmd
        × Enqueues resolve rooms ctx cmd rooms')
      ⊎ ((result.error ≢ none) × (rooms' ≡ rooms))

  outcome :
      (resolve : SessionRoomResolver) (rooms : RoomStore F32) (ctx : PacketContext) (env : Envelope)
      (millis : ℤ) (now : ℕ) (cmd : RoomCommand F32) (r : HandlePacketResult × RoomStore F32)
      → Translates ctx env millis now cmd
      → Outcome resolve rooms ctx cmd r
      → Handled resolve rooms ctx env millis now r
  outcome resolve rooms ctx env millis now cmd r t (inl (_, e, q)) = inl (cmd, e, t, q)
  outcome resolve rooms ctx env millis now cmd r t (inr (_, e, q)) = inr (e, q)

  pub handle_envelope-Handled :
      (resolve : SessionRoomResolver) (rooms : RoomStore F32) (ctx : PacketContext) (env : Envelope)
      (millis : ℤ) (now : ℕ)
      → Handled resolve rooms ctx env millis now
          (handle_envelope fl s resolve rooms ctx env millis now)
  unfolding handle_envelope handle_player_input handle_player_transform_update
  handle_envelope-Handled resolve rooms ctx env millis now =
      elim (Bool-cases (is_client_to_server env.message_type)) [
        | inr c ↦ rw c (inr (ground arith, refl))
        | inl c ↦ elim (Bool-cases (env.message_type == type_player_input)) [
          | inl t ↦ elim (Result-cases (decode_message (input_format fl s) env.body)) [
            | inr (e, d) ↦ rw (c, t, d) (inr (ground arith, refl))
            | inl (msg, d) ↦
                let cmd = input_command fl ctx msg millis now in
                let value : handle_envelope fl s resolve rooms ctx env millis now
                    ≡ submit resolve rooms ctx type_player_input cmd =
                  rw (c, t, d) in
                subst (Handled resolve rooms ctx env millis now) (sym value) (
                  outcome resolve rooms ctx env millis now cmd
                    (submit resolve rooms ctx type_player_input cmd)
                    (inl (msg, ground arith, d, refl))
                    (submit-Outcome resolve rooms ctx type_player_input cmd))
          ]
          | inr t ↦ elim (Bool-cases (env.message_type == type_player_transform_update)) [
            | inr u ↦ rw (c, t, u) (inr (ground arith, refl))
            | inl u ↦ elim (Result-cases (decode_message (transform_update_format fl s) env.body)) [
              | inr (e, d) ↦ rw (c, t, u, d) (inr (ground arith, refl))
              | inl (msg, d) ↦
                  let cmd = transform_command fl ctx msg now in
                  let value : handle_envelope fl s resolve rooms ctx env millis now
                      ≡ submit resolve rooms ctx type_player_transform_update cmd =
                    rw (c, t, u, d) in
                  subst (Handled resolve rooms ctx env millis now) (sym value) (
                    outcome resolve rooms ctx env millis now cmd
                      (submit resolve rooms ctx type_player_transform_update cmd)
                      (inr (msg, ground arith, d, refl))
                      (submit-Outcome resolve rooms ctx type_player_transform_update cmd))
            ]
          ]
        ]
      ]

  pub handle_envelope-ok :
      (resolve : SessionRoomResolver) (rooms rooms' : RoomStore F32) (ctx : PacketContext)
      (env : Envelope) (millis : ℤ) (now : ℕ) (cmd : RoomCommand F32)
      → Translates ctx env millis now cmd
      → Enqueues resolve rooms ctx cmd rooms'
      → handle_envelope fl s resolve rooms ctx env millis now
        ≡ (record { message_type = env.message_type; handled = true; error = none }, rooms')
  unfolding handle_envelope handle_player_input handle_player_transform_update is_client_to_server
  handle_envelope-ok resolve rooms rooms' ctx env millis now cmd (inl (msg, t, d, c)) q =
      ground (arith, t, d, c, Enqueues-submit resolve rooms rooms' ctx type_player_input cmd q)
  handle_envelope-ok resolve rooms rooms' ctx env millis now cmd (inr (msg, t, d, c)) q =
      ground (
        arith,
        t,
        d,
        c,
        Enqueues-submit resolve rooms rooms' ctx type_player_transform_update cmd q,
      )

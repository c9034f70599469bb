-- ===== src/Receive/Packets.antt =====
-- What a packet does to the rooms, from its bytes to the command queue (internal/app/realtime/receive.go
-- with the envelope codec, the packet handler and Enqueue).
use realtime_room_middleware.Base.{
  ℕ, ◌≡◌, ◌≢◌, ◌↔◌, ◌⊎◌, inl, inr, refl, ap, sym, none, List, String, arith, subst,
}
use realtime_room_middleware.Base.Floats.{Floats}
use realtime_room_middleware.Base.Int.{ℤ}
use realtime_room_middleware.Base.Result.{ok}
use realtime_room_middleware.Protocol.{Envelope, decode_envelope}
use realtime_room_middleware.Protocol.Formats.{Serials}
use realtime_room_middleware.Room.{RoomCommand}
use realtime_room_middleware.Handler.{
  HandlePacketResult, RoomStore, SessionRoomResolver, handle_envelope,
}
use realtime_room_middleware.Handler.Queued.{
  Enqueues, Translates, Handled, Result-cases, handle_envelope-Handled, handle_envelope-ok,
}
use realtime_room_middleware.Receive.{SessionResolver, resolve_context, reported, process}

module _ (fl : Floats) (s : Serials fl.F32) where
  open fl use {F32}

  -- The packet holds an allowed envelope, whose message stands for a command, which the session's room
  -- takes.
  abbrev pub Delivers :
      SessionRoomResolver
      → SessionResolver
      → RoomStore F32
      → String
      → List ℕ
      → ℤ
      → ℕ
      → RoomStore F32
      → Type 0
  Delivers resolve identify rooms session bytes millis now rooms' =
      (env : Envelope) × (cmd : RoomCommand F32) × (decode_envelope s.envelope bytes ≡ ok env)
      × Translates fl s (resolve_context identify session) env millis now cmd
      × Enqueues resolve rooms (resolve_context identify session) cmd rooms'

  reported-Handled :
      (resolve : SessionRoomResolver) (identify : SessionResolver) (rooms : RoomStore F32)
      (session : String) (bytes : List ℕ) (millis : ℤ) (now : ℕ) (env : Envelope)
      (r : HandlePacketResult × RoomStore F32)
      → decode_envelope s.envelope bytes ≡ ok env
      → Handled fl s resolve rooms (resolve_context identify session) env millis now r
      → (((reported fl env r).0 ≡ none)
          × Delivers resolve identify rooms session bytes millis now (reported fl env r).1)
        ⊎ (((reported fl env r).0 ≢ none) × ((reported fl env r).1 ≡ rooms))
  reported-Handled resolve identify rooms session bytes millis now env r d (inl (cmd, e, t, q)) =
      inl (ground arith, (env, cmd, d, t, q))
  reported-Handled resolve identify rooms session bytes millis now env r d (inr (e, q)) =
      inr (ground arith, q)

  pub process-cases :
      (resolve : SessionRoomResolver) (identify : SessionResolver) (rooms : RoomStore F32)
      (session : String) (bytes : List ℕ) (millis : ℤ) (now : ℕ)
      → let out = process fl s resolve identify rooms session bytes millis now in
        ((out.0 ≡ none) × Delivers resolve identify rooms session bytes millis now out.1)
        ⊎ ((out.0 ≢ none) × (out.1 ≡ rooms))
  unfolding process
  process-cases resolve identify rooms session bytes millis now =
      elim (Result-cases (decode_envelope s.envelope bytes)) [
        | inr (e, d) ↦ rw (d, process) (inr (ground arith, refl))
        | inl (env, d) ↦
            let ctx = resolve_context identify session in
            let r = handle_envelope fl s resolve rooms ctx env millis now in
            let value : process fl s resolve identify rooms session bytes millis now
                ≡ reported fl env r =
              rw (d, process) in
            subst
              (λ out.
                ((out.0 ≡ none) × Delivers resolve identify rooms session bytes millis now out.1)
                ⊎ ((out.0 ≢ none) × (out.1 ≡ rooms)))
              (sym value)
              (reported-Handled resolve identify rooms session bytes millis now env r d
                (handle_envelope-Handled fl s resolve rooms ctx env millis now))
      ]

  process-Delivers :
      (resolve : SessionRoomResolver) (identify : SessionResolver) (rooms rooms' : RoomStore F32)
      (session : String) (bytes : List ℕ) (millis : ℤ) (now : ℕ)
      → Delivers resolve identify rooms session bytes millis now rooms'
      → process fl s resolve identify rooms session bytes millis now ≡ (none, rooms')
  unfolding process
  process-Delivers resolve identify rooms rooms' session bytes millis now (env, cmd, d, t, q) =
      let ctx = resolve_context identify session in
      let h = handle_envelope-ok fl s resolve rooms rooms' ctx env millis now cmd t q in
      rw (d, process) (rw h)

  -- Process returns no error exactly when the bytes decode to an allowed envelope of type PlayerInput or
  -- PlayerTransformUpdate, its body decodes to a message that passes its checks, the session has a
  -- player ID, and its room is running with a free place in its queue; then that room gets the
  -- command of that message at the end of its queue, and nothing else changes. Otherwise no room
  -- changes.
  pub process-exact :
      (resolve : SessionRoomResolver) (identify : SessionResolver) (rooms rooms' : RoomStore F32)
      (session : String) (bytes : List ℕ) (millis : ℤ) (now : ℕ)
      → ((process fl s resolve identify rooms session bytes millis now ≡ (none, rooms'))
          ↔ Delivers resolve identify rooms session bytes millis now rooms')
        × (((process fl s resolve identify rooms session bytes millis now).0 ≡ none)
            ⊎ ((process fl s resolve identify rooms session bytes millis now).1 ≡ rooms))
  process-exact resolve identify rooms rooms' session bytes millis now =
      let out = process fl s resolve identify rooms session bytes millis now in
      let delivers : ((out.0 ≡ none)
              × Delivers resolve identify rooms session bytes millis now out.1)
            ⊎ ((out.0 ≢ none) × (out.1 ≡ rooms))
          → out ≡ (none, rooms')
          → Delivers resolve identify rooms session bytes millis now rooms' =
        λ c h. elim c [
          | inl (_, d) ↦
              subst (Delivers resolve identify rooms session bytes millis now) (ap (λ o. o.1) h) d
          | inr (e, _) ↦ absurd (e (ap (λ o. o.0) h))
        ] in
      let kept : ((out.0 ≡ none) × Delivers resolve identify rooms session bytes millis now out.1)
            ⊎ ((out.0 ≢ none) × (out.1 ≡ rooms))
          → (out.0 ≡ none) ⊎ (out.1 ≡ rooms) =
        λ c. elim c [ inl (e, _) ↦ inl e | inr (_, q) ↦ inr q ] in
      let c = process-cases resolve identify rooms session bytes millis now in
      (
        (delivers c, process-Delivers resolve identify rooms rooms' session bytes millis now),
        kept c,
      )

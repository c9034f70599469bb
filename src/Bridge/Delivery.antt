-- ===== src/Bridge/Delivery.antt =====
-- What the bridge sends (internal/game/bridge/bridge.go): a delta of sound entries is always encoded, and
-- the client reads it back.
use realtime_room_middleware.Base.{
  ℕ, ◌≡◌, ◌<◌, ◌∙◌, refl, false, Option, none, some, List, [], ◌∷◌, ◌++◌, map, String, All,
  is_empty, length, arith, suc,
}
use realtime_room_middleware.Base.Floats.{Floats}
use realtime_room_middleware.Base.Result.{Result, ok, err}
use realtime_room_middleware.Player.{PlayerTransform}
use realtime_room_middleware.Player.Validate.{validate_player_transform}
use realtime_room_middleware.Delta
use realtime_room_middleware.Delta.{is_empty_delta, no_entries}
use realtime_room_middleware.Delta.Entries.{EntriesHold}
use realtime_room_middleware.Protocol.{
  MessageFault, ProtocolFault, at_enter, at_update, at_leave, type_player_delta,
}
use realtime_room_middleware.Protocol.Messages.{
  first_fault, validate_enter, validate_update, validate_leave, validate_delta, is_empty_message,
}
use realtime_room_middleware.Protocol.RoundTrip.{RoundTrips}
use realtime_room_middleware.Protocol.Wrapping.{encode_and_wrap, decode_and_unwrap}
use realtime_room_middleware.Protocol.Wrapping.Unwrapping.{
  FormatRoundTrips, decode_and_unwrap-encode_and_wrap,
}
use realtime_room_middleware.Protocol.Formats.{Serials, delta_format}
use realtime_room_middleware.Transport
use realtime_room_middleware.Transport.{RealtimeSession}
use realtime_room_middleware.Bridge.{
  convert_enter, convert_update, convert_leave, convert_player_delta, send_encoded,
  send_player_delta, current_version,
}

-- Nothing is found wrong in a list whose entries are all accepted, wherever its numbering starts.
first_fault-map :
    {A B : Type 0} (at : ℕ → MessageFault → MessageFault) (validate : B → Option MessageFault)
    (f : A → B) (P : A → Type 0)
    → ((a : A) → P a → validate (f a) ≡ none)
    → (i : ℕ) (xs : List A) → All P xs
    → first_fault at validate i (map f xs) ≡ none
unfolding first_fault
first_fault-map at validate f P accepts i [] h = refl
first_fault-map at validate f P accepts i (x ∷ xs) h =
    rw (accepts x h.0, first_fault) (first_fault-map at validate f P accepts (suc i) xs h.1)

no_entries-map : {A B : Type 0} (f : A → B) (xs : List A) → no_entries (map f xs) ≡ no_entries xs
no_entries-map f [] = refl
no_entries-map f (x ∷ xs) = refl

send-ok :
    (sess sess' : RealtimeSession) (bytes : List ℕ)
    → Transport.send sess bytes ≡ ok sess'
    → (sess.closed ≡ false)
      × (length sess.send_queue < sess.send_queue_size)
      × (sess' ≡ record sess { send_queue = sess.send_queue ++ bytes ∷ [] })
unfolding Transport.send Transport.queue_packet
send-ok sess sess' bytes h = ground arith

send_encoded-ok :
    (sess sess' : RealtimeSession) (r : Result ProtocolFault (List ℕ))
    → send_encoded sess r ≡ ok sess'
    → (bytes : List ℕ) × (r ≡ ok bytes) × (Transport.send sess bytes ≡ ok sess')
unfolding send_encoded
send_encoded-ok sess sess' (err e) h = absurd (ground arith)
send_encoded-ok sess sess' (ok bytes) h = (bytes, refl, ground arith)

module _ (fl : Floats) where
  open fl use {F32}

  -- A named player with a transform that the room's checks accept.
  abbrev pub Sound : String → PlayerTransform F32 → Type 0
  Sound pid t = (is_empty pid ≡ false) × (validate_player_transform fl t ≡ none)

  abbrev pub Named : String → Type 0
  Named pid = is_empty pid ≡ false

  validate_enter-convert :
      (e : Delta.PlayerEnterDelta F32)
      → Sound e.player_id e.transform
      → validate_enter fl (convert_enter e) ≡ none
  unfolding validate_enter validate_player_transform
  validate_enter-convert e h = ground arith

  validate_update-convert :
      (u : Delta.PlayerUpdateDelta F32)
      → Sound u.player_id u.transform
      → validate_update fl (convert_update u) ≡ none
  unfolding validate_update validate_player_transform
  validate_update-convert u h = ground arith

  validate_leave-convert :
      (l : Delta.PlayerLeaveDelta) → Named l.player_id → validate_leave (convert_leave l) ≡ none
  unfolding validate_leave
  validate_leave-convert l h = ground arith

  is_empty_message-convert :
      (d : Delta.PlayerDelta F32)
      → is_empty_message (convert_player_delta (some d)) ≡ is_empty_delta d
  unfolding is_empty_message convert_player_delta is_empty_delta
  is_empty_message-convert d = simp (
    no_entries-map convert_enter d.enters,
    no_entries-map convert_update d.updates,
    no_entries-map convert_leave d.leaves,
  )

  -- The checks of the protocol accept the wire form of every delta that is not empty and whose entries are
  -- sound.
  pub validate_delta-convert_player_delta :
      (d : Delta.PlayerDelta F32)
      → EntriesHold Sound Named d
      → is_empty_delta d ≡ false
      → validate_delta fl (convert_player_delta (some d)) ≡ none
  unfolding validate_delta convert_player_delta
  validate_delta-convert_player_delta d h full =
      let wire = convert_player_delta (some d) in
      let not_empty : is_empty_message wire ≡ false = is_empty_message-convert d ∙ full in
      let a =
        first_fault-map at_enter (validate_enter fl) convert_enter
          (λ e. Sound e.player_id e.transform) validate_enter-convert 0 d.enters h.enters in
      let b =
        first_fault-map at_update (validate_update fl) convert_update
          (λ u. Sound u.player_id u.transform) validate_update-convert 0 d.updates h.updates in
      let c =
        first_fault-map at_leave validate_leave convert_leave (λ l. Named l.player_id)
          validate_leave-convert 0 d.leaves h.leaves in
      rw (not_empty, a, b) c

  -- If msgpack decodes what it encoded and SendPlayerDelta returns no error, then the session was open
  -- with a free place in its send queue, its queue has one packet more, at the end, and
  -- DecodeAndUnwrap reads that packet as a PlayerDelta of the tick of the delta, which is its wire form.
  pub send_player_delta-delivers :
      (s : Serials F32) (sess sess' : RealtimeSession) (d : Delta.PlayerDelta F32)
      → RoundTrips s.envelope
      → FormatRoundTrips (delta_format fl s)
      → send_player_delta fl s sess d ≡ ok sess'
      → (bytes : List ℕ) × (body : List ℕ) × (sess.closed ≡ false)
        × (length sess.send_queue < sess.send_queue_size)
        × (sess' ≡ record sess { send_queue = sess.send_queue ++ bytes ∷ [] })
        × (decode_and_unwrap (delta_format fl s) s.envelope bytes
            ≡ ok (
              record {
                version = current_version;
                message_type = type_player_delta;
                seq = 0;
                tick = d.tick;
                body = body;
              },
              convert_player_delta (some d),
            ))
  unfolding send_player_delta
  send_player_delta-delivers s sess sess' d envelopes trips h =
      let wire = convert_player_delta (some d) in
      let (bytes, encoded, sent) =
        send_encoded-ok sess sess'
          (encode_and_wrap (delta_format fl s) s.envelope current_version type_player_delta 0 d.tick
            wire)
          h in
      let (open_session, place, same_session) = send-ok sess sess' bytes sent in
      let (body, _, read) =
        decode_and_unwrap-encode_and_wrap (delta_format fl s) s.envelope current_version
          type_player_delta 0 d.tick wire bytes envelopes trips encoded in
      (bytes, body, open_session, place, same_session, read)

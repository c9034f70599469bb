-- ===== src/Protocol/Wrapping/Unwrapping.antt =====
-- A wrapped message is read back as it was (internal/protocol/codec.go).
use realtime_room_middleware.Base.{
  ℕ, ◌≤◌, ◌≡◌, ◌↔◌, refl, ap, true, Option, none, some, List, length, arith,
}
use realtime_room_middleware.Base.Result.{Result, ok, err, ◌>>=◌}
use realtime_room_middleware.Protocol.{
  Envelope, ProtocolFault, Msgpack, max_payload_size, is_implemented, validate_version,
  validate_message_type, validate_payload_size, encode_envelope,
}
use realtime_room_middleware.Protocol.RoundTrip.{RoundTrips, decode_envelope-encode_envelope}
use realtime_room_middleware.Protocol.Wrapping.{
  MessageFormat, bounded, accepted, encode_message, decode_message, build_envelope, encode_and_wrap,
  decode_and_unwrap,
}

bind-ok :
    {A B : Type 0} (r : Result ProtocolFault A) (f : A → Result ProtocolFault B) (b : B)
    → (r >>= f) ≡ ok b
    → (a : A) × (r ≡ ok a) × (f a ≡ ok b)
bind-ok (ok a) f b h = (a, refl, h)
bind-ok (err e) f b h = absurd (ground arith)

module _ {M : Type 0} (format : MessageFormat M) where
  -- What msgpack documents, at this type: the bytes of a message decode to the message.
  abbrev pub FormatRoundTrips : Type 0
  FormatRoundTrips =
      (m : M) (bytes : List ℕ) → format.marshal m ≡ some bytes → format.unmarshal bytes ≡ some m

  bounded-ok :
      (o : Option (List ℕ)) (body : List ℕ)
      → bounded format o ≡ ok body
      → (o ≡ some body) × (length body ≤ max_payload_size)
  unfolding bounded validate_payload_size
  bounded-ok none body h = absurd (ground arith)
  bounded-ok (some b) body h = ground arith

  pub encode_message-ok :
      (msg : M) (body : List ℕ)
      → encode_message format msg ≡ ok body
      → (format.validate msg ≡ none)
        × (format.marshal msg ≡ some body)
        × (length body ≤ max_payload_size)
  unfolding encode_message
  encode_message-ok msg body h = ground (arith, bounded-ok (format.marshal msg) body)

  accepted-ok :
      (o : Option M) (m : M)
      → (accepted format o ≡ ok m) ↔ ((o ≡ some m) × (format.validate m ≡ none))
  unfolding accepted
  accepted-ok none m = ground arith
  accepted-ok (some x) m = ground arith

  -- DecodeMessage accepts exactly the bodies that msgpack decodes to a message that passes its Validate.
  pub decode_message_iff :
      (body : List ℕ) (m : M)
      → (decode_message format body ≡ ok m)
        ↔ ((format.unmarshal body ≡ some m) × (format.validate m ≡ none))
  unfolding decode_message
  decode_message_iff body m = accepted-ok (format.unmarshal body) m

  pub decode_message-encode_message :
      (msg : M) (body : List ℕ)
      → FormatRoundTrips
      → encode_message format msg ≡ ok body
      → decode_message format body ≡ ok msg
  decode_message-encode_message msg body trips h =
      let (v, m, _) = encode_message-ok msg body h in
      (decode_message_iff body msg).1 (trips msg body m, v)

  pub build_envelope-ok :
      (version message_type seq tick : ℕ) (msg : M) (env : Envelope)
      → build_envelope format version message_type seq tick msg ≡ ok env
      → (version ≡ 1)
        × (is_implemented message_type ≡ true)
        × (encode_message format msg ≡ ok env.body)
        × (env ≡ record {
          version = version;
          message_type = message_type;
          seq = seq;
          tick = tick;
          body = env.body;
        })
  unfolding build_envelope validate_version validate_message_type
  build_envelope-ok version message_type seq tick msg env h = ground arith

  -- If msgpack decodes what it encoded, then DecodeAndUnwrap accepts the bytes that EncodeAndWrap made,
  -- and returns the message, in an envelope with the version, type, sequence number and tick that
  -- it was given.
  pub decode_and_unwrap-encode_and_wrap :
      (mp : Msgpack) (version message_type seq tick : ℕ) (msg : M) (bytes : List ℕ)
      → RoundTrips mp
      → FormatRoundTrips
      → encode_and_wrap format mp version message_type seq tick msg ≡ ok bytes
      → (body : List ℕ) × (format.marshal msg ≡ some body)
        × (decode_and_unwrap format mp bytes
            ≡ ok (
              record {
                version = version;
                message_type = message_type;
                seq = seq;
                tick = tick;
                body = body;
              },
              msg,
            ))
  unfolding encode_and_wrap decode_and_unwrap
  decode_and_unwrap-encode_and_wrap mp version message_type seq tick msg bytes envelopes trips h =
      let (env, built, wrapped) =
        bind-ok (build_envelope format version message_type seq tick msg)
          (λ env. encode_envelope mp env) bytes h in
      let (_, _, encoded, same_envelope) =
        build_envelope-ok version message_type seq tick msg env built in
      let (_, body, _) = encode_message-ok msg env.body encoded in
      let unwrapped = decode_envelope-encode_envelope mp env bytes envelopes wrapped in
      let read = decode_message-encode_message msg env.body trips encoded in
      (
        env.body,
        body,
        rw (unwrapped, ◌>>=◌) (rw (read, ◌>>=◌) (ap (λ e. ok (e, msg)) same_envelope)),
      )

-- ===== src/Protocol/Wrapping.antt =====
-- internal/protocol/codec.go: a message in the body of an envelope. msgpack at the type of the message
-- is a parameter, as is its Validate: `msg.(validatable)` fails for a type that has none.
pub mod Unwrapping
use realtime_room_middleware.Base.{ℕ, Option, none, some, List}
use realtime_room_middleware.Base.Result.{Result, ok, err, ◌>>=◌}
use realtime_room_middleware.Protocol.{
  Envelope, ProtocolFault, MessageFault, Msgpack, invalid_message, encode_message_failed,
  decode_message_failed, unless, validate_version, validate_message_type, validate_payload_size,
  encode_envelope, decode_envelope,
}

-- A type of messages: its two directions in msgpack, and its Validate (always `none` if it has none).
pub record MessageFormat (M : Type 0) : Type 0 where
  pub marshal : M → Option (List ℕ)
  pub unmarshal : List ℕ → Option M
  pub validate : M → Option MessageFault

abbrev pub rejecting :
    {A : Type 0} → Option MessageFault → Result ProtocolFault A → Result ProtocolFault A
rejecting none r = r
rejecting (some e) r = err (invalid_message e)

module _ {M : Type 0} (format : MessageFormat M) where
  bounded : Option (List ℕ) → Result ProtocolFault (List ℕ)
  unfolding validate_payload_size
  bounded none = err encode_message_failed
  bounded (some bytes) = unless (validate_payload_size bytes) (ok bytes)

  -- EncodeMessage
  unfoldable pub encode_message : M → Result ProtocolFault (List ℕ)
  unfolding bounded
  encode_message msg = rejecting (format.validate msg) (bounded (format.marshal msg))

  accepted : Option M → Result ProtocolFault M
  accepted none = err decode_message_failed
  accepted (some msg) = rejecting (format.validate msg) (ok msg)

  -- DecodeMessage
  unfoldable pub decode_message : List ℕ → Result ProtocolFault M
  unfolding accepted
  decode_message body = accepted (format.unmarshal body)

  -- BuildEnvelope
  unfoldable pub build_envelope : ℕ → ℕ → ℕ → ℕ → M → Result ProtocolFault Envelope
  unfolding encode_message validate_version validate_message_type
  build_envelope version message_type seq tick msg = unless (validate_version version) (
      unless (validate_message_type message_type) (
        encode_message msg >>= λ body. ok (record {
          version = version;
          message_type = message_type;
          seq = seq;
          tick = tick;
          body = body;
        })))

  -- EncodeAndWrap
  unfoldable pub encode_and_wrap : Msgpack → ℕ → ℕ → ℕ → ℕ → M → Result ProtocolFault (List ℕ)
  unfolding build_envelope encode_envelope
  encode_and_wrap mp version message_type seq tick msg =
      build_envelope version message_type seq tick msg >>= λ env. encode_envelope mp env

  -- DecodeAndUnwrap: the envelope and the message.
  unfoldable pub decode_and_unwrap : Msgpack → List ℕ → Result ProtocolFault (Envelope × M)
  unfolding decode_message decode_envelope
  decode_and_unwrap mp bytes =
      decode_envelope mp bytes >>= λ env. decode_message env.body >>= λ msg. ok (env, msg)

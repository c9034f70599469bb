-- ===== src/Protocol/RoundTrip.antt =====
-- What the envelope codec accepts, and that it reads back what it wrote (internal/protocol/codec.go).
use realtime_room_middleware.Base.{
  ℕ, ◌≤◌, ◌≡◌, ◌↔◌, refl, ap, sym, subst, true, Option, none, some, List, length, arith,
}
use realtime_room_middleware.Base.Result.{Result, ok}
use realtime_room_middleware.Protocol.{
  Envelope, ProtocolFault, Msgpack, max_packet_size, max_payload_size, is_implemented,
  validate_version, validate_message_type, validate_packet_size, validate_payload_size, checked,
  sized, encode_envelope, decoded, decode_envelope,
}

-- An envelope that the protocol allows.
pub record IsValid (env : Envelope) : Type 0 where
  pub version_one : env.version ≡ 1
  pub implemented : is_implemented env.message_type ≡ true
  pub small : length env.body ≤ max_payload_size

checked-ok :
    {A : Type 0} (env : Envelope) (r : Result ProtocolFault A) (a : A)
    → (checked env r ≡ ok a) ↔ (IsValid env × (r ≡ ok a))
unfolding checked validate_version validate_message_type validate_payload_size
checked-ok env r a = (
  λ h. (
    record { version_one = ground arith; implemented = ground arith; small = ground arith },
    ground arith,
  ),
  λ (v, e). ground (arith, v.version_one, v.implemented, v.small),
)

sized-ok :
    (o : Option (List ℕ)) (bytes : List ℕ)
    → (sized o ≡ ok bytes) ↔ ((o ≡ some bytes) × (length bytes ≤ max_packet_size))
unfolding sized validate_packet_size
sized-ok none bytes = ground arith
sized-ok (some d) bytes = ground arith

some_eq : (x y : Envelope) → some x ≡ some y → x ≡ y
some_eq x y e = cc

ok_eq : (x y : Envelope) (r : Result ProtocolFault Envelope) → r ≡ ok x → r ≡ ok y → x ≡ y
ok_eq x y r e f = cc

decoded-ok :
    (o : Option Envelope) (env : Envelope) → (decoded o ≡ ok env) ↔ ((o ≡ some env) × IsValid env)
unfolding decoded
decoded-ok none env = (λ h. absurd (ground arith), λ (e, _). absurd (ground arith))
decoded-ok (some x) env =
    let c = checked-ok x (ok x) env in
    (
      λ h.
          let (v, e) = c.0 h in
          let same_envelope = ok_eq x env (ok x) refl e in
          (ap some same_envelope, subst IsValid same_envelope v),
      λ (e, v).
          let same_envelope = some_eq x env e in
          c.1 (subst IsValid (sym same_envelope) v, ap ok same_envelope),
    )

-- EncodeEnvelope accepts exactly the allowed envelopes that msgpack encodes in at most MaxPacketSize
-- bytes, and returns those bytes.
pub encode_envelope_iff :
    (mp : Msgpack) (env : Envelope) (bytes : List ℕ)
    → (encode_envelope mp env ≡ ok bytes)
      ↔ (IsValid env × (mp.marshal env ≡ some bytes) × (length bytes ≤ max_packet_size))
unfolding encode_envelope
encode_envelope_iff mp env bytes =
    let c = checked-ok env (sized (mp.marshal env)) bytes in
    let s = sized-ok (mp.marshal env) bytes in
    (λ h. let (v, e) = c.0 h in let (m, l) = s.0 e in (v, m, l), λ (v, m, l). c.1 (v, s.1 (m, l)))

-- DecodeEnvelope accepts exactly packets of at most MaxPacketSize bytes that msgpack decodes to an
-- allowed envelope (version 1, an implemented message type, a body of at most MaxPayloadSize bytes),
-- and returns that envelope.
pub decode_envelope_iff :
    (mp : Msgpack) (bytes : List ℕ) (env : Envelope)
    → (decode_envelope mp bytes ≡ ok env)
      ↔ ((length bytes ≤ max_packet_size) × (mp.unmarshal bytes ≡ some env) × IsValid env)
unfolding decode_envelope validate_packet_size
decode_envelope_iff mp bytes env =
    let d = decoded-ok (mp.unmarshal bytes) env in
    (
      λ h.
          let e : decoded (mp.unmarshal bytes) ≡ ok env = ground arith in
          let (m, v) = d.0 e in (ground arith, m, v),
      λ (l, m, v). let e = d.1 (m, v) in ground arith,
    )

-- What msgpack documents: decoding the bytes of an encoded value gives the value back.
abbrev pub RoundTrips : Msgpack → Type 0
RoundTrips mp =
    (env : Envelope) (bytes : List ℕ) → mp.marshal env ≡ some bytes → mp.unmarshal bytes ≡ some env

-- If msgpack decodes what it encoded, then DecodeEnvelope accepts what EncodeEnvelope wrote and
-- returns the envelope that was encoded.
pub decode_envelope-encode_envelope :
    (mp : Msgpack) (env : Envelope) (bytes : List ℕ)
    → RoundTrips mp
    → encode_envelope mp env ≡ ok bytes
    → decode_envelope mp bytes ≡ ok env
decode_envelope-encode_envelope mp env bytes trips h =
    let (v, m, l) = (encode_envelope_iff mp env bytes).0 h in
    (decode_envelope_iff mp bytes env).1 (l, trips env bytes m, v)

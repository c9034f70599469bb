-- ===== src/Examples/Packets.antt =====
-- Runs of the envelope codec, with a simple encoding in the place of msgpack.
use realtime_room_middleware.Base.{
  ℕ, ◌≤◌, ◌≡◌, ◌↔◌, refl, subst, Option, none, some, List, [], ◌∷◌, length,
}
use realtime_room_middleware.Base.Result.{ok}
use realtime_room_middleware.Protocol.{
  Envelope, Msgpack, max_packet_size, encode_envelope, decode_envelope,
}
use realtime_room_middleware.Protocol.RoundTrip.{
  IsValid, RoundTrips, encode_envelope_iff, decode_envelope_iff, decode_envelope-encode_envelope,
}

abbrev pub read_fields : List ℕ → Option Envelope
read_fields (v ∷ t ∷ s ∷ k ∷ b) =
    some (record { version = v; message_type = t; seq = s; tick = k; body = b })
read_fields _ = none

abbrev pub in_order : Msgpack
in_order = record {
  marshal = λ env. some (env.version ∷ env.message_type ∷ env.seq ∷ env.tick ∷ env.body);
  unmarshal = λ bytes. read_fields bytes;
}

pub in_order-RoundTrips : RoundTrips in_order
in_order-RoundTrips env bytes e = subst (λ o. read_option o ≡ some env) e refl
  where
    read_option : Option (List ℕ) → Option Envelope
    read_option none = none
    read_option (some b) = read_fields b

abbrev ping : Envelope
ping = record { version = 1; message_type = 5; seq = 7; tick = 0; body = 1 ∷ 2 ∷ [] }

abbrev ping_bytes : List ℕ
ping_bytes = 1 ∷ 5 ∷ 7 ∷ 0 ∷ 1 ∷ 2 ∷ []

ping_encoded : encode_envelope in_order ping ≡ ok ping_bytes
unfolding encode_envelope
ping_encoded = refl

encode_envelope_iff_example : (encode_envelope in_order ping ≡ ok ping_bytes) ↔ (
    IsValid ping
    × (in_order.marshal ping ≡ some ping_bytes)
    × (length ping_bytes ≤ max_packet_size))
encode_envelope_iff_example = encode_envelope_iff in_order ping ping_bytes

decode_envelope_iff_example : (decode_envelope in_order ping_bytes ≡ ok ping) ↔ (
    (length ping_bytes ≤ max_packet_size)
    × (in_order.unmarshal ping_bytes ≡ some ping)
    × IsValid ping)
decode_envelope_iff_example = decode_envelope_iff in_order ping_bytes ping

decode_envelope-encode_envelope_example : decode_envelope in_order ping_bytes ≡ ok ping
decode_envelope-encode_envelope_example =
    decode_envelope-encode_envelope in_order ping ping_bytes in_order-RoundTrips ping_encoded

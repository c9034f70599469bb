-- ===== src/Protocol.antt =====
-- internal/protocol: the envelope around every packet (protocol.go) and its codec (codec.go). The
-- third-party msgpack package is a parameter; a `uint16` or `uint32` is a natural number.
pub mod RoundTrip
pub mod Messages
pub mod Wrapping
pub mod Formats
use realtime_room_middleware.Base.{
  ℕ, Bool, true, false, ◌||◌, Option, none, some, List, [], ◌∷◌, length, if◌then◌else◌, ltb, leb,
  ◌&&◌, ◌==◌,
}
use realtime_room_middleware.Base.Result.{Result, ok, err}

pub record Envelope : Type 0 where
  pub version : ℕ
  pub message_type : ℕ
  pub seq : ℕ
  pub tick : ℕ
  pub body : List ℕ

-- What Validate finds in a message; an entry of a list is named by its position.
pub data MessageFault : Type 0 where
  player_id_required must_be_finite must_not_be_empty : MessageFault
  at_player at_enter at_update at_leave : ℕ → MessageFault → MessageFault

pub data ProtocolFault : Type 0 where
  unsupported_version unimplemented_type packet_too_large payload_too_large : ℕ → ProtocolFault
  marshal_failed unmarshal_failed encode_message_failed decode_message_failed : ProtocolFault
  invalid_message : MessageFault → ProtocolFault

abbrev pub min_version : ℕ
min_version = 1

abbrev pub max_version : ℕ
max_version = 1

abbrev pub max_packet_size : ℕ
max_packet_size = 65536

abbrev pub max_payload_size : ℕ
max_payload_size = 61440

-- IsClientToServer
unfoldable pub is_client_to_server : ℕ → Bool
is_client_to_server t = leb 1 t && leb t 99

-- IsServerToClient
unfoldable pub is_server_to_client : ℕ → Bool
is_server_to_client t = leb 1000 t && leb t 1999

abbrev pub type_player_input : ℕ
type_player_input = 4

abbrev pub type_player_transform_update : ℕ
type_player_transform_update = 6

abbrev pub type_full_snapshot : ℕ
type_full_snapshot = 1005

abbrev pub type_player_delta : ℕ
type_player_delta = 1006

-- IsImplemented
unfoldable pub is_implemented : ℕ → Bool
is_implemented t =
    t == 1
    || t == 2
    || t == 4
    || t == 5
    || t == 6
    || t == 1001
    || t == 1002
    || t == 1005
    || t == 1006
    || t == 1100
    || t == 1101

-- ValidateVersion
unfoldable pub validate_version : ℕ → Option ProtocolFault
validate_version v =
    if ltb v min_version || ltb max_version v then some (unsupported_version v) else none

-- ValidateMessageType
unfoldable pub validate_message_type : ℕ → Option ProtocolFault
unfolding is_implemented
validate_message_type t = if is_implemented t then none else some (unimplemented_type t)

-- ValidatePacketSize
unfoldable pub validate_packet_size : List ℕ → Option ProtocolFault
validate_packet_size bytes =
    if ltb max_packet_size (length bytes) then some (packet_too_large (length bytes)) else none

-- ValidatePayloadSize
unfoldable pub validate_payload_size : List ℕ → Option ProtocolFault
validate_payload_size body =
    if ltb max_payload_size (length body) then some (payload_too_large (length body)) else none

-- `msgpack.Marshal` and `msgpack.Unmarshal` at `Envelope`; `none` is an error.
pub record Msgpack : Type 0 where
  pub marshal : Envelope → Option (List ℕ)
  pub unmarshal : List ℕ → Option Envelope

-- `if err := check; err != nil { return err }`
abbrev pub unless :
    {A : Type 0} → Option ProtocolFault → Result ProtocolFault A → Result ProtocolFault A
unless none r = r
unless (some e) r = err e

-- The checks of an envelope that both directions make.
unfoldable pub checked : {A : Type 0} → Envelope → Result ProtocolFault A → Result ProtocolFault A
unfolding validate_version validate_message_type validate_payload_size
checked env r =
    unless (validate_version env.version)
      (unless (validate_message_type env.message_type) (unless (validate_payload_size env.body) r))

sized : Option (List ℕ) → Result ProtocolFault (List ℕ)
unfolding validate_packet_size
sized none = err marshal_failed
sized (some bytes) = unless (validate_packet_size bytes) (ok bytes)

-- EncodeEnvelope
unfoldable pub encode_envelope : Msgpack → Envelope → Result ProtocolFault (List ℕ)
unfolding checked sized
encode_envelope mp env = checked env (sized (mp.marshal env))

decoded : Option Envelope → Result ProtocolFault Envelope
unfolding checked
decoded none = err unmarshal_failed
decoded (some env) = checked env (ok env)

-- DecodeEnvelope
unfoldable pub decode_envelope : Msgpack → List ℕ → Result ProtocolFault Envelope
unfolding decoded validate_packet_size
decode_envelope mp bytes = unless (validate_packet_size bytes) (decoded (mp.unmarshal bytes))

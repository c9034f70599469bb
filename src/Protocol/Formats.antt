-- ===== src/Protocol/Formats.antt =====
-- The message types as EncodeMessage and DecodeMessage see them (internal/protocol/codec.go): the
-- third-party msgpack package at each type, a parameter, with the Validate of messages.go.
use realtime_room_middleware.Base.{ℕ, Option, List}
use realtime_room_middleware.Base.Floats.{Floats}
use realtime_room_middleware.Protocol.{MessageFault, Msgpack}
use realtime_room_middleware.Protocol.Messages.{
  PlayerInput, PlayerTransformUpdate, FullSnapshot, PlayerDelta, validate_input,
  validate_transform_update, validate_full_snapshot, validate_delta,
}
use realtime_room_middleware.Protocol.Wrapping.{MessageFormat}

-- `msgpack.Marshal` and `msgpack.Unmarshal` at one type; `none` is an error.
pub record Serial (M : Type 0) : Type 0 where
  pub marshal : M → Option (List ℕ)
  pub unmarshal : List ℕ → Option M

-- msgpack at the types that the middleware sends and receives.
pub record Serials (F : Type 0) : Type 0 where
  pub envelope : Msgpack
  pub input : Serial (PlayerInput F)
  pub transform_update : Serial (PlayerTransformUpdate F)
  pub full_snapshot : Serial (FullSnapshot F)
  pub delta : Serial (PlayerDelta F)

abbrev pub validated : {M : Type 0} → Serial M → (M → Option MessageFault) → MessageFormat M
validated s validate = record { marshal = s.marshal; unmarshal = s.unmarshal; validate = validate }

module _ (fl : Floats) where
  open fl use {F32}

  abbrev pub input_format : Serials F32 → MessageFormat (PlayerInput F32)
  input_format s = validated s.input (validate_input fl)

  abbrev pub transform_update_format : Serials F32 → MessageFormat (PlayerTransformUpdate F32)
  transform_update_format s = validated s.transform_update (validate_transform_update fl)

  abbrev pub full_snapshot_format : Serials F32 → MessageFormat (FullSnapshot F32)
  full_snapshot_format s = validated s.full_snapshot (validate_full_snapshot fl)

  abbrev pub delta_format : Serials F32 → MessageFormat (PlayerDelta F32)
  delta_format s = validated s.delta (validate_delta fl)

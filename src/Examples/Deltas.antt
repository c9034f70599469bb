-- ===== src/Examples/Deltas.antt =====
-- Runs of the delta builder and of the input check.
use realtime_room_middleware.Base.{ℕ, ◌≡◌, ◌↔◌, none, [], ◌∷◌, String}
use realtime_room_middleware.Base.Int.{pos}
use realtime_room_middleware.Base.Map.{Map, string_key}
use realtime_room_middleware.Player.{PlayerTransform, PlayerState, PlayerInput, new_player_state}
use realtime_room_middleware.Player.Validate.{
  validate_player_input, IsAcceptable, validate_player_input_iff,
}
use realtime_room_middleware.Delta.Replay.{Client}
use realtime_room_middleware.Examples.Numbers.{whole_numbers}

abbrev pub resting : PlayerTransform ℕ
resting = record {
  position = record { x = 0; y = 0; z = 0 };
  rotation = record { x = 0; y = 0; z = 0; w = 1 };
  tick = 0;
}

abbrev two_players : Map String (PlayerState ℕ)
two_players =
    ("ann", new_player_state whole_numbers "ann" "ann" 0)
    ∷ ("bob", new_player_state whole_numbers "bob" "bob" 0)
    ∷ []

-- A client that was told nothing.
abbrev untold : Client ℕ
untold = []

abbrev step_input : PlayerInput ℕ
step_input = record { seq = 1; transform = resting; timestamp = pos 5 }

validate_player_input_iff_example :
    (validate_player_input whole_numbers step_input ≡ none) ↔ IsAcceptable whole_numbers step_input
validate_player_input_iff_example = validate_player_input_iff whole_numbers step_input

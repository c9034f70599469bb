-- ===== src/Examples/Clients.antt =====
-- Two clients in a room, from the bytes of a packet to the packet for the other. A simple encoding stands in
-- the place of msgpack: it has only deltas in which one player, p2, enters.
use realtime_room_middleware.Base.{
  ℕ, ◌<◌, ◌≡◌, ◌↔◌, ◌⊎◌, refl, sym, ap, subst, ite, false, Option, none, some, List, [], ◌∷◌, ◌++◌,
  String, length, string_discrete, ℕ_discrete, arith, All,
}
use realtime_room_middleware.Base.Int.{pos}
use realtime_room_middleware.Base.Map.{Map, lookup, insert, string_key, nat_key}
use realtime_room_middleware.Base.Result.{ok}
use realtime_room_middleware.Delta
use realtime_room_middleware.Delta.{DeltaBatch, is_empty_delta}
use realtime_room_middleware.Protocol.{type_player_delta, decode_envelope}
use realtime_room_middleware.Protocol.Messages.{
  PlayerInput, PlayerTransformUpdate, PlayerDelta, PlayerEnterDelta, PlayerUpdateDelta,
  PlayerLeaveDelta, validate_delta, validate_input,
}
use realtime_room_middleware.Protocol.Wrapping.{encode_and_wrap, decode_and_unwrap}
use realtime_room_middleware.Protocol.Wrapping.Unwrapping.{
  FormatRoundTrips, decode_and_unwrap-encode_and_wrap,
}
use realtime_room_middleware.Protocol.Formats.{Serial, Serials, input_format, delta_format}
use realtime_room_middleware.Player.Validate.{not_finite}
use realtime_room_middleware.Transport
use realtime_room_middleware.Transport.{RealtimeSession, websocket}
use realtime_room_middleware.Bridge.{current_version, convert_player_delta, send_player_delta}
use realtime_room_middleware.Bridge.Delivery.{send_player_delta-delivers}
use realtime_room_middleware.Room.Lifecycle.{start, enqueue}
use realtime_room_middleware.Handler.{
  RoomStore, SessionRoomResolver, input_command, handle_envelope,
}
use realtime_room_middleware.Receive.{SessionResolver, process, handle_packet}
use realtime_room_middleware.Receive.Packets.{Delivers, process-exact}
use realtime_room_middleware.Player.Validate.{is_zero, validate_player_input}
use realtime_room_middleware.Room.{
  Room, RoomSpec, RoomCommand, new_room, default_room_config, other, cmd_join, running,
}
use realtime_room_middleware.Room.Tick.{tick}
use realtime_room_middleware.Room.Cadence
use realtime_room_middleware.Room.Commands
use realtime_room_middleware.Player.{set_status, new_player_state}
use realtime_room_middleware.Player
use realtime_room_middleware.Cluster
use realtime_room_middleware.Cluster.KMeans
use realtime_room_middleware.Room.Lifecycle.Runs.{call_start, call_enqueue, after}
use realtime_room_middleware.Room.Finite.{HasLiterals}
use realtime_room_middleware.Middleware.{Event, arrives, calls, opened, EventIsProper, run}
use realtime_room_middleware.Middleware.Encoding.{run-encodes}
use realtime_room_middleware.Examples.Numbers.{whole_numbers}
use realtime_room_middleware.Examples.Packets.{in_order, in_order-RoundTrips}

abbrev read_input : List ℕ → Option (PlayerInput ℕ)
read_input (s ∷ x ∷ z ∷ y ∷ a ∷ []) =
    some (record { seq = s; move_x = x; move_z = z; yaw = y; anim_state = a })
read_input _ = none

abbrev input_serial : Serial (PlayerInput ℕ)
input_serial = record {
  marshal = λ m. some (m.seq ∷ m.move_x ∷ m.move_z ∷ m.yaw ∷ m.anim_state ∷ []);
  unmarshal = read_input;
}

abbrev read_update : List ℕ → Option (PlayerTransformUpdate ℕ)
read_update (s ∷ x ∷ z ∷ y ∷ a ∷ []) =
    some (record { seq = s; x = x; z = z; yaw = y; anim_state = a })
read_update _ = none

abbrev update_serial : Serial (PlayerTransformUpdate ℕ)
update_serial = record {
  marshal = λ m. some (m.seq ∷ m.x ∷ m.z ∷ m.yaw ∷ m.anim_state ∷ []);
  unmarshal = read_update;
}

-- Only a delta in which p2 enters has an encoding.
write_delta :
    ℕ
    → List (PlayerEnterDelta ℕ)
    → List (PlayerUpdateDelta ℕ)
    → List PlayerLeaveDelta
    → Option (List ℕ)
write_delta t (e ∷ []) [] [] =
    ite (string_discrete e.player_id "p2")
      (some (t ∷ e.x ∷ e.z ∷ e.yaw ∷ e.anim_state ∷ e.version ∷ [])) none
write_delta t _ _ _ = none

abbrev p2_enters : ℕ → ℕ → ℕ → ℕ → ℕ → ℕ → PlayerDelta ℕ
p2_enters t x z y a v = record {
  tick = t;
  enters = record { player_id = "p2"; x = x; z = z; yaw = y; anim_state = a; version = v } ∷ [];
  updates = [];
  leaves = [];
}

abbrev read_delta : List ℕ → Option (PlayerDelta ℕ)
read_delta (t ∷ x ∷ z ∷ y ∷ a ∷ v ∷ []) = some (p2_enters t x z y a v)
read_delta _ = none

abbrev serials : Serials ℕ
serials = record {
  envelope = in_order;
  input = input_serial;
  transform_update = update_serial;
  full_snapshot = record { marshal = λ _. none; unmarshal = λ _. none };
  delta = record {
    marshal = λ d. write_delta d.tick d.enters d.updates d.leaves;
    unmarshal = read_delta;
  };
}

read_delta-write_delta :
    (t : ℕ) (enters : List (PlayerEnterDelta ℕ)) (updates : List (PlayerUpdateDelta ℕ))
    (leaves : List PlayerLeaveDelta) (bytes : List ℕ)
    → write_delta t enters updates leaves ≡ some bytes
    → read_delta bytes
      ≡ some (record { tick = t; enters = enters; updates = updates; leaves = leaves })
unfolding write_delta
read_delta-write_delta t (e ∷ []) [] [] bytes h = elim (string_discrete e.player_id "p2") [
  | yes p ↦
      let written : t ∷ e.x ∷ e.z ∷ e.yaw ∷ e.anim_state ∷ e.version ∷ [] ≡ bytes = ground arith in
      let named : PlayerEnterDelta ℕ = record {
        player_id = "p2";
        x = e.x;
        z = e.z;
        yaw = e.yaw;
        anim_state = e.anim_state;
        version = e.version;
      } in
      let renamed : named ≡ e = λ i. record e { player_id = sym p i } in
      subst
        (λ b. read_delta b ≡ some (record { tick = t; enters = e ∷ []; updates = []; leaves = [] }))
        written
        (ap (λ x. some (record { tick = t; enters = x ∷ []; updates = []; leaves = [] })) renamed)
  | no p ↦ absurd (ground arith)
]
read_delta-write_delta t _ _ _ bytes h = cc

delta-trips : FormatRoundTrips (delta_format whole_numbers serials)
delta-trips d bytes h = read_delta-write_delta d.tick d.enters d.updates d.leaves bytes h

input-trips : FormatRoundTrips (input_format whole_numbers serials)
input-trips m bytes h = subst (λ o. read_option o ≡ some m) h refl
  where
    read_option : Option (List ℕ) → Option (PlayerInput ℕ)
    read_option none = none
    read_option (some b) = read_input b

abbrev steps_north : PlayerInput ℕ
steps_north = record { seq = 1; move_x = 4; move_z = 6; yaw = 2; anim_state = 0 }

abbrev input_bytes : List ℕ
input_bytes = 1 ∷ 4 ∷ 7 ∷ 0 ∷ 1 ∷ 4 ∷ 6 ∷ 2 ∷ 0 ∷ []

input_wrapped :
    encode_and_wrap (input_format whole_numbers serials) in_order 1 4 7 0 steps_north
    ≡ ok input_bytes
unfolding encode_and_wrap validate_input not_finite
input_wrapped = refl

decode_and_unwrap-encode_and_wrap_example :
    (body : List ℕ) × (input_serial.marshal steps_north ≡ some body)
    × (decode_and_unwrap (input_format whole_numbers serials) in_order input_bytes
        ≡ ok
            (record { version = 1; message_type = 4; seq = 7; tick = 0; body = body }, steps_north))
decode_and_unwrap-encode_and_wrap_example =
    decode_and_unwrap-encode_and_wrap (input_format whole_numbers serials) in_order 1 4 7 0
      steps_north input_bytes in_order-RoundTrips input-trips input_wrapped

abbrev browser : RealtimeSession
browser = record {
  id = "s1";
  transport = websocket;
  closed = false;
  send_queue = [];
  send_queue_size = 256;
}

abbrev sight : Delta.PlayerDelta ℕ
sight = record {
  tick = 2;
  enters =
      record {
        player_id = "p2";
        transform = record {
          position = record { x = 4; y = 0; z = 6 };
          rotation = record { x = 0; y = 2; z = 0; w = 1 };
          tick = 2;
        };
        version = 1;
      }
      ∷ [];
  updates = [];
  leaves = [];
}

abbrev sight_bytes : List ℕ
sight_bytes = 1 ∷ 1006 ∷ 0 ∷ 2 ∷ 2 ∷ 4 ∷ 6 ∷ 2 ∷ 0 ∷ 1 ∷ []

abbrev told : RealtimeSession
told = record browser { send_queue = sight_bytes ∷ [] }

sight_sent : send_player_delta whole_numbers serials browser sight ≡ ok told
unfolding send_player_delta write_delta string_discrete encode_and_wrap validate_delta not_finite
    Transport.send
sight_sent = refl

send_player_delta-delivers_example :
    (bytes : List ℕ) × (body : List ℕ) × (browser.closed ≡ false)
    × (length browser.send_queue < browser.send_queue_size)
    × (told ≡ record browser { send_queue = browser.send_queue ++ bytes ∷ [] })
    × (decode_and_unwrap (delta_format whole_numbers serials) in_order bytes
        ≡ ok (
          record {
            version = current_version;
            message_type = type_player_delta;
            seq = 0;
            tick = sight.tick;
            body = body;
          },
          convert_player_delta (some sight),
        ))
send_player_delta-delivers_example =
    send_player_delta-delivers whole_numbers serials browser told sight in_order-RoundTrips
      delta-trips sight_sent

abbrev hall : RoomSpec ℕ
hall = record {
  logical_room_id = "hall";
  instance_id = "hall-0001";
  config = record (default_room_config whole_numbers) {
    tick_rate_hz = pos 1;
    broadcast_rate_hz = pos 1;
  };
}

-- Every session is in the room at address 0; the session s2 is that of player p2.
abbrev in_hall : SessionRoomResolver
in_hall session = ok (some 0)

abbrev who : SessionResolver
who session = ite (string_discrete session "s2") ("p2", "bob") ("p1", "ann")

abbrev joins_hall : String → String → String → RoomCommand ℕ
joins_hall session player user = record {
  kind = cmd_join;
  session_id = session;
  player_id = player;
  user_id = user;
  payload = other;
  timestamp = 3;
}

abbrev rooms : Map ℕ (RoomSpec ℕ)
rooms = (0, hall) ∷ []

-- Both send a join, and a packet of p2 arrives.
abbrev happens : List (Event ℕ)
happens =
    calls 0 call_start
    ∷ calls 0 (call_enqueue (joins_hall "s1" "p1" "ann"))
    ∷ calls 0 (call_enqueue (joins_hall "s2" "p2" "bob"))
    ∷ arrives "s2" input_bytes 7 8
    ∷ []

happens-proper : All (EventIsProper whole_numbers) happens
unfolding string_discrete
happens-proper = (tt, ((refl, tt), ((refl, tt), (omega arith, tt))))

lits : HasLiterals whole_numbers
unfolding not_finite is_zero
lits = record { zero_finite = refl; one_finite = refl; one_not_zero = refl }

abbrev store : RoomStore ℕ
store = run whole_numbers serials in_hall who (opened whole_numbers rooms) happens

abbrev the_hall : Room ℕ
the_hall = record (new_room whole_numbers hall) {
  status = running;
  commands =
      joins_hall "s1" "p1" "ann"
      ∷ joins_hall "s2" "p2" "bob"
      ∷ input_command whole_numbers
          (record { session_id = "s2"; player_id = "p2"; user_id = "bob" }) steps_north (pos 7) 8
      ∷ [];
}

hall_found : lookup 0 store ≡ some the_hall
unfolding run lookup insert handle_packet decode_envelope handle_envelope validate_input not_finite
    string_discrete ℕ_discrete enqueue after start new_room
hall_found = refl

process-exact_example :
    let out = process whole_numbers serials in_hall who store "s2" input_bytes (pos 7) 8 in
    ((out ≡ (none, store))
      ↔ Delivers whole_numbers serials in_hall who store "s2" input_bytes (pos 7) 8 store)
    × ((out.0 ≡ none) ⊎ (out.1 ≡ store))
process-exact_example =
    process-exact whole_numbers serials in_hall who store store "s2" input_bytes (pos 7) 8

-- What s1 is told: p2 enters, where its packet has put it.
abbrev first_sight : Delta.PlayerDelta ℕ
first_sight = record {
  tick = 1;
  enters =
      record {
        player_id = "p2";
        transform = record {
          position = record { x = 4; y = 0; z = 6 };
          rotation = record { x = 0; y = 2; z = 0; w = 1 };
          tick = 1;
        };
        version = 1;
      }
      ∷ [];
  updates = [];
  leaves = [];
}

abbrev first_batch : DeltaBatch ℕ
first_batch = record { tick = 1; player_delta = some first_sight }

hall_tells_s1 : lookup "s1" (tick whole_numbers the_hall 9).0 ≡ some first_batch
unfolding tick new_room lookup insert string_discrete ℕ_discrete Cadence.is_broadcast_tick
    Cadence.should_recompute_cluster Commands.handle_command input_command
    Commands.handle_player_input validate_player_input not_finite is_zero Commands.handle_join
    set_status new_player_state Player.update_transform KMeans.compute Cluster.validate_config
    KMeans.filter_valid_players KMeans.build_output KMeans.zeros KMeans.init_centroids
    Cluster.compute_k
hall_tells_s1 = refl

sight_full : is_empty_delta first_sight ≡ false
unfolding is_empty_delta
sight_full = refl

run-encodes_example : validate_delta whole_numbers (convert_player_delta (some first_sight)) ≡ none
run-encodes_example =
    run-encodes whole_numbers lits serials in_hall who rooms happens 0 the_hall 9 "s1" first_batch
      first_sight happens-proper hall_found hall_tells_s1 refl sight_full

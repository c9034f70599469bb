-- ===== src/Examples/Joins.antt =====
-- A browser that joins through the gateway of a single node.
use realtime_room_middleware.Base.{◌≡◌, refl, ℕ, some, none, List, [], String}
use realtime_room_middleware.Base.Int.{pos}
use realtime_room_middleware.Base.Result.{ok, err}
use realtime_room_middleware.Gateway.{
  JoinRequest, JoinResponse, NodeAssignment, NodeResolver, handle_join, generate,
  new_single_node_resolver, resolve_room, unsupported_transport, resolve_transport,
}
use realtime_room_middleware.Gateway.Joining.{Passes, Grants, handle_join-Grants}

abbrev browser : JoinRequest
browser = record {
  user_id = "u1";
  logical_room_id = "lobby";
  client_protocol_version = 1;
  client_platform = "webgl";
  requested_transport = "";
}

-- The node has no WebSocket address unless one is given.
abbrev node : String → NodeResolver
node url = resolve_room (λ room drawn. room) (new_single_node_resolver ":9000" url (pos 1)) 7 0

abbrev told : JoinResponse
told = record {
  room_instance_id = "lobby";
  game_node_addr = ":9000";
  protocol_version = 1;
  session_token = "00";
  transport = "websocket";
  kcp_addr = "";
  web_socket_url = "wss://host";
  expires_at = 300000000000;
}

browser_is_let_in :
    handle_join (λ body. some browser) (node "wss://host") (generate (λ bytes. "00") (some [])) []
    ≡ ok told
unfolding handle_join realtime_room_middleware.Base.string_discrete resolve_room
    new_single_node_resolver
browser_is_let_in = refl

browser_without_url :
    handle_join (λ body. some browser) (node "") (some "00") []
    ≡ err (record { status = 400; code = unsupported_transport })
unfolding handle_join realtime_room_middleware.Base.string_discrete resolve_room
    new_single_node_resolver
browser_without_url = refl

browser_without_kcp : resolve_transport "webgl" "kcp" ≡ none
unfolding resolve_transport realtime_room_middleware.Base.string_discrete
browser_without_kcp = refl

handle_join-Grants_example :
    (req : JoinRequest) × ((some browser ≡ some req)
      × Passes req
      × ((a : NodeAssignment) × (text : String) × Grants
            (node "wss://host")
            req
            (some "00")
            told
            a
            text))
handle_join-Grants_example =
    handle_join-Grants (λ body. some browser) (node "wss://host")
      (generate (λ bytes. "00") (some [])) [] told browser_is_let_in

-- ===== src/Gateway.antt =====
-- internal/gateway: the answer to POST /join (http/handlers.go, http/models.go), the resolver of a single
-- node (resolver/resolver.go) and the session token (token/token.go). JSON, random numbers, hexadecimal
-- text and Sprintf are parameters; an error has its HTTP status and its code.
pub mod Joining
use realtime_room_middleware.Base.{
  ℕ, ◌+◌, ◌-◌, ◌*◌, ◌%◌, Bool, true, false, ◌&&◌, ◌||◌, not, Option, none, some, List, String,
  is_empty, same, ltb, if◌then◌else◌,
}
use realtime_room_middleware.Base.Int.{ℤ, pos, negsuc}
use realtime_room_middleware.Base.Result.{Result, ok, err}
use realtime_room_middleware.Protocol.{min_version, max_version}

pub record JoinRequest : Type 0 where
  pub user_id : String
  pub logical_room_id : String
  pub client_protocol_version : ℕ  -- uint16
  pub client_platform : String
  pub requested_transport : String

pub record JoinResponse : Type 0 where
  pub room_instance_id : String
  pub game_node_addr : String
  pub protocol_version : ℕ
  pub session_token : String
  pub transport : String
  pub kcp_addr : String
  pub web_socket_url : String
  pub expires_at : ℕ

pub record NodeAssignment : Type 0 where
  pub room_instance_id : String
  pub game_node_addr : String
  pub kcp_addr : String
  pub web_socket_url : String
  pub protocol_version : ℕ
  pub expires_at : ℕ

-- A resolver, given the logical room and the user; an error is a text.
abbrev pub NodeResolver : Type 0
NodeResolver = String → String → Result String NodeAssignment

pub data ErrorCode : Type 0 where
  bad_request missing_user_id missing_logical_room_id unsupported_version : ErrorCode
  missing_client_platform unsupported_platform unsupported_transport : ErrorCode
  resolver_error token_error : ErrorCode

-- ErrorResponse, with the status.
pub record Refusal : Type 0 where
  pub status : ℕ
  pub code : ErrorCode

abbrev pub platform_native : String
platform_native = "native"

abbrev pub platform_webgl : String
platform_webgl = "webgl"

abbrev pub transport_kcp : String
transport_kcp = "kcp"

abbrev pub transport_wss : String
transport_wss = "websocket"

-- resolveTransport; an error is `none`.
unfoldable pub resolve_transport : String → String → Option String
resolve_transport platform requested =
    if not (is_empty requested)
    then if not (same requested transport_kcp) && not (same requested transport_wss)
      then none
      else if same platform platform_webgl && same requested transport_kcp
      then none
      else some requested
    else if same platform platform_native
    then some transport_kcp
    else if same platform platform_webgl
    then some transport_wss
    else none

module _ {A : Type 0} where
  -- `if test { writeError(w, status, ..., code); return }`
  abbrev pub refuse_if : Bool → ℕ → ErrorCode → Result Refusal A → Result Refusal A
  refuse_if true status code r = err (record { status = status; code = code })
  refuse_if false status code r = r

-- The response to a join that got this far.
unfoldable pub respond : String → NodeAssignment → String → JoinResponse
respond transport a token = record {
  room_instance_id = a.room_instance_id;
  game_node_addr = a.game_node_addr;
  protocol_version = a.protocol_version;
  session_token = token;
  transport = transport;
  kcp_addr = if same transport transport_kcp then a.kcp_addr else "";
  web_socket_url =
      if same transport transport_kcp
      then ""
      else if same transport transport_wss
      then a.web_socket_url
      else "";
  expires_at = a.expires_at;
}

-- The token, and the response.
unfoldable pub with_token : String → NodeAssignment → Option String → Result Refusal JoinResponse
unfolding respond
with_token transport a none = err (record { status = 500; code = token_error })
with_token transport a (some token) = ok (respond transport a token)

-- What handleJoin does with the resolver's answer.
unfoldable pub with_assignment :
    String → Result String NodeAssignment → Option String → Result Refusal JoinResponse
unfolding with_token
with_assignment transport (err _) token = err (record { status = 500; code = resolver_error })
with_assignment transport (ok a) token =
    refuse_if (same transport transport_wss && is_empty a.web_socket_url) 400 unsupported_transport
      (with_token transport a token)

unfoldable pub with_transport :
    NodeResolver → JoinRequest → Option String → Option String → Result Refusal JoinResponse
unfolding with_assignment
with_transport resolve req token none = err (record { status = 400; code = unsupported_transport })
with_transport resolve req token (some transport) =
    with_assignment transport (resolve req.logical_room_id req.user_id) token

-- handleJoin of a request that was decoded; `token` is what the generator gives, if it is asked.
unfoldable pub join : NodeResolver → JoinRequest → Option String → Result Refusal JoinResponse
unfolding with_transport resolve_transport
join resolve req token = refuse_if (is_empty req.user_id) 400 missing_user_id (
    refuse_if (is_empty req.logical_room_id) 400 missing_logical_room_id (
      refuse_if
        (ltb req.client_protocol_version min_version || ltb max_version req.client_protocol_version)
        400 unsupported_version
        (refuse_if (is_empty req.client_platform) 400 missing_client_platform (
          refuse_if
            (not (same req.client_platform platform_native)
              && not (same req.client_platform platform_webgl))
            400 unsupported_platform
            (with_transport resolve req token
              (resolve_transport req.client_platform req.requested_transport))))))

-- handleJoin, after the body was decoded, or not.
unfoldable pub join_decoded :
    NodeResolver → Option String → Option JoinRequest → Result Refusal JoinResponse
unfolding join
join_decoded resolve token none = err (record { status = 400; code = bad_request })
join_decoded resolve token (some req) = join resolve req token

-- handleJoin
unfoldable pub handle_join :
    (List ℕ → Option JoinRequest)
    → NodeResolver
    → Option String
    → List ℕ
    → Result Refusal JoinResponse
unfolding join_decoded
handle_join decode resolve token body = join_decoded resolve token (decode body)

-- Generate: 32 random bytes in hexadecimal, or the error of the random source.
abbrev pub generate : (List ℕ → String) → Option (List ℕ) → Option String
generate encode_to_string none = none
generate encode_to_string (some bytes) = some (encode_to_string bytes)

pub record SingleNodeResolver : Type 0 where
  pub kcp_addr : String
  pub web_socket_url : String
  pub protocol_version : ℕ
  pub token_ttl : ℕ

-- `uint16(x)`
abbrev to_u16 : ℤ → ℕ
to_u16 (pos n) = n % 65536
to_u16 (negsuc n) = 65535 - n % 65536

-- NewSingleNodeResolver; five minutes, in nanoseconds.
unfoldable pub new_single_node_resolver : String → String → ℤ → SingleNodeResolver
new_single_node_resolver kcp_addr url version = record {
  kcp_addr = kcp_addr;
  web_socket_url = url;
  protocol_version = to_u16 version;
  token_ttl = 300 * 1000000000;
}

-- ResolveRoom, with a random number below 10000 and the time.
unfoldable pub resolve_room : (String → ℕ → String) → SingleNodeResolver → ℕ → ℕ → NodeResolver
resolve_room format r drawn now logical user = ok (record {
  room_instance_id = format logical drawn;
  game_node_addr = r.kcp_addr;
  kcp_addr = r.kcp_addr;
  web_socket_url = r.web_socket_url;
  protocol_version = r.protocol_version;
  expires_at = now + r.token_ttl;
})

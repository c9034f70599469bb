-- ===== src/Gateway/Joining.antt =====
-- Who is let in, and where to (internal/gateway/http/handlers.go).
use text.Mathlib.TextEquality.{eq_iff}
use realtime_room_middleware.Base.{
  is_empty, same, not, ltb, ◌||◌, ◌&&◌, ℕ, Bool, true, false, subst, sym, ◌≡◌, ◌≢◌, ◌⊎◌, refl,
  Option, none, some, List, String, arith,
}
use realtime_room_middleware.Base.Result.{Result, ok, err}
use realtime_room_middleware.Protocol.{min_version, max_version}
use realtime_room_middleware.Gateway.{
  JoinRequest, JoinResponse, NodeAssignment, NodeResolver, ErrorCode, unsupported_transport,
  missing_user_id, missing_logical_room_id, unsupported_version, missing_client_platform,
  unsupported_platform, Refusal, refuse_if, platform_native, platform_webgl, transport_kcp,
  transport_wss, resolve_transport, respond, with_token, with_assignment, with_transport, join,
  join_decoded, handle_join,
}

wss_ne_kcp : transport_wss ≢ transport_kcp
wss_ne_kcp = ground (arith, eq_iff transport_wss transport_kcp)

native_ne_webgl : platform_native ≢ platform_webgl
native_ne_webgl = ground (arith, eq_iff platform_native platform_webgl)

-- The transport that a client is given: a browser never KCP; a native client KCP, or WebSocket if it asks.
abbrev pub Fits : JoinRequest → String → Type 0
Fits req transport =
    ((transport ≡ transport_kcp)
      × (req.client_platform ≡ platform_native)
      × ((req.requested_transport ≡ "") ⊎ (req.requested_transport ≡ transport_kcp)))
    ⊎ ((transport ≡ transport_wss)
        × (((req.client_platform ≡ platform_webgl) × (req.requested_transport ≡ ""))
            ⊎ (((req.client_platform ≡ platform_webgl) ⊎ (req.client_platform ≡ platform_native))
                × (req.requested_transport ≡ transport_wss))))

empty_ne_wss : transport_wss ≢ ""
empty_ne_wss = ground (arith, eq_iff transport_wss "")

resolve_transport-Fits :
    (req : JoinRequest) (transport : String)
    → (req.client_platform ≡ platform_native) ⊎ (req.client_platform ≡ platform_webgl)
    → resolve_transport req.client_platform req.requested_transport ≡ some transport
    → Fits req transport
unfolding resolve_transport
resolve_transport-Fits req transport p h = ground (arith, native_ne_webgl, wss_ne_kcp)

-- What a client may be told, given the assignment and the token.
abbrev pub Tells : JoinRequest → NodeAssignment → String → JoinResponse → Type 0
Tells req a token resp =
    (resp.room_instance_id ≡ a.room_instance_id)
    × (resp.game_node_addr ≡ a.game_node_addr)
    × (resp.protocol_version ≡ a.protocol_version)
    × (resp.expires_at ≡ a.expires_at)
    × (resp.session_token ≡ token)
    × Fits req resp.transport
    × (((resp.transport ≡ transport_kcp)
          × (resp.kcp_addr ≡ a.kcp_addr)
          × (resp.web_socket_url ≡ ""))
        ⊎ ((resp.transport ≡ transport_wss)
            × (resp.kcp_addr ≡ "")
            × (resp.web_socket_url ≡ a.web_socket_url)
            × (resp.web_socket_url ≢ "")))

respond-Tells :
    (req : JoinRequest) (a : NodeAssignment) (token transport : String)
    → Fits req transport
    → ((transport ≡ transport_wss) → (a.web_socket_url ≢ ""))
    → Tells req a token (respond transport a token)
unfolding respond
respond-Tells req a token transport fits url = ground (arith, wss_ne_kcp)

ok_ne_err : {E A : Type 0} {e : E} {x : A} → ¬ (◌≡◌ {A = Result E A} (ok x) (err e))
ok_ne_err = λ h. cc

ok_inj : {E A : Type 0} {x y : A} → ◌≡◌ {A = Result E A} (ok x) (ok y) → x ≡ y
ok_inj h = cc

refuse_if-ok :
    {A : Type 0} (test : Bool) (status : ℕ) (code : ErrorCode) (r : Result Refusal A) (x : A)
    → refuse_if test status code r ≡ ok x
    → (test ≡ false) × (r ≡ ok x)
refuse_if-ok true status code r x h = absurd (ok_ne_err (sym h))
refuse_if-ok false status code r x h = (refl, h)

-- What a granted join rests on, once its transport is known.
abbrev pub Grants :
    NodeResolver → JoinRequest → Option String → JoinResponse → NodeAssignment → String → Type 0
Grants resolve req token resp a text =
    (resolve req.logical_room_id req.user_id ≡ ok a) × (token ≡ some text) × Tells req a text resp

with_assignment-Tells :
    (req : JoinRequest) (transport : String) (answer : Result String NodeAssignment)
    (token : Option String) (resp : JoinResponse)
    → Fits req transport
    → with_assignment transport answer token ≡ ok resp
    → (a : NodeAssignment) × (text : String) × ((answer ≡ ok a)
        × (token ≡ some text)
        × Tells req a text resp)
unfolding with_assignment with_token
with_assignment-Tells req transport (err e) token resp fits h = absurd (ok_ne_err (sym h))
with_assignment-Tells req transport (ok a) none resp fits h =
    let (wss, r) = refuse_if-ok _ 400 unsupported_transport _ resp h in absurd (ok_ne_err (sym r))
with_assignment-Tells req transport (ok a) (some text) resp fits h =
    let (wss, r) =
      refuse_if-ok (same transport transport_wss && is_empty a.web_socket_url) 400
        unsupported_transport (ok (respond transport a text)) resp h in
    (
      a,
      text,
      (
        refl,
        refl,
        subst (Tells req a text) (ok_inj r)
            (respond-Tells req a text transport fits (ground arith)),
      ),
    )

with_transport-Tells :
    (resolve : NodeResolver) (req : JoinRequest) (chosen token : Option String)
    (resp : JoinResponse)
    → ((transport : String) → chosen ≡ some transport → Fits req transport)
    → with_transport resolve req token chosen ≡ ok resp
    → (a : NodeAssignment) × (text : String) × Grants resolve req token resp a text
unfolding with_transport
with_transport-Tells resolve req none token resp fits h = absurd (ok_ne_err (sym h))
with_transport-Tells resolve req (some transport) token resp fits h =
    with_assignment-Tells req transport _ token resp (fits transport refl) h

-- The tests that a granted join has passed.
abbrev pub Passes : JoinRequest → Type 0
Passes req =
    (req.user_id ≢ "")
    × (req.logical_room_id ≢ "")
    × (req.client_protocol_version ≡ 1)
    × ((req.client_platform ≡ platform_native) ⊎ (req.client_platform ≡ platform_webgl))

join-tests :
    (resolve : NodeResolver) (req : JoinRequest) (token : Option String) (resp : JoinResponse)
    → join resolve req token ≡ ok resp
    → (is_empty req.user_id ≡ false)
      × (is_empty req.logical_room_id ≡ false)
      × (ltb req.client_protocol_version min_version || ltb max_version req.client_protocol_version
          ≡ false)
      × (not (same req.client_platform platform_native)
            && not (same req.client_platform platform_webgl)
          ≡ false)
      × (with_transport resolve req token
            (resolve_transport req.client_platform req.requested_transport)
          ≡ ok resp)
unfolding join
join-tests resolve req token resp h =
    let (user, h1) = refuse_if-ok _ 400 missing_user_id _ resp h in
    let (room, h2) = refuse_if-ok _ 400 missing_logical_room_id _ resp h1 in
    let (version, h3) = refuse_if-ok _ 400 unsupported_version _ resp h2 in
    let (given, h4) = refuse_if-ok _ 400 missing_client_platform _ resp h3 in
    let (known, h5) = refuse_if-ok _ 400 unsupported_platform _ resp h4 in
    (user, room, version, known, h5)

join-Grants :
    (resolve : NodeResolver) (req : JoinRequest) (token : Option String) (resp : JoinResponse)
    → join resolve req token ≡ ok resp
    → Passes req × ((a : NodeAssignment) × (text : String) × Grants resolve req token resp a text)
join-Grants resolve req token resp h =
    let (user, room, version, known, rest) = join-tests resolve req token resp h in
    let platform : (req.client_platform ≡ platform_native)
        ⊎ (req.client_platform ≡ platform_webgl) =
      ground arith in
    (
      (ground arith, ground arith, ground arith, platform),
      with_transport-Tells resolve req _ token resp
          (λ transport t. resolve_transport-Fits req transport platform t) rest,
    )

join_decoded-Grants :
    (decoded : Option JoinRequest) (resolve : NodeResolver) (token : Option String)
    (resp : JoinResponse)
    → join_decoded resolve token decoded ≡ ok resp
    → (req : JoinRequest) × ((decoded ≡ some req)
        × Passes req
        × ((a : NodeAssignment) × (text : String) × Grants resolve req token resp a text))
unfolding join_decoded
join_decoded-Grants none resolve token resp h = absurd (ok_ne_err (sym h))
join_decoded-Grants (some req) resolve token resp h =
    let (passes, grants) = join-Grants resolve req token resp h in (req, (refl, passes, grants))

-- A client that handleJoin lets in sent a body that decodes to a request with a user and a room, at protocol
-- version 1, from a native client or a browser. The answer is what the resolver assigned, with the generated
-- token. It names KCP, with the KCP address and no URL, only to a native client that asked for KCP or for
-- nothing; and it names WebSocket, with a URL that is not empty and no KCP address, only to a browser that
-- asked for nothing or to a client that asked for WebSocket.
pub handle_join-Grants :
    (decode : List ℕ → Option JoinRequest) (resolve : NodeResolver) (token : Option String)
    (body : List ℕ) (resp : JoinResponse)
    → handle_join decode resolve token body ≡ ok resp
    → (req : JoinRequest) × ((decode body ≡ some req)
        × Passes req
        × ((a : NodeAssignment) × (text : String) × Grants resolve req token resp a text))
unfolding handle_join
handle_join-Grants decode resolve token body resp h =
    join_decoded-Grants (decode body) resolve token resp h

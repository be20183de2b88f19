-- ===== src/Control/Ticket.antt =====
-- The tickets of control-api/src/main.rs: a candidate node, a signed token and the answer around it.
-- The claims of the control plane are those of the node with two more fields in the route.
use cll.Node.Auth.{signing_input, BusinessAuthContext, ClientTokenClaims, Codec}
pub mod Choice
pub mod Accepted
pub mod Issued
pub mod Opens
use cll.Base.{
  any, ltb, ◌∷◌, false, none, not, ◌+◌, [], some, true, ◌&&◌, ◌++◌, Bool, List, Option, ℕ,
}
use cll.Control.Nodes.{has_secret, online, has_id, NodeRow, NodeStatus}
use cll.Control.Intent.{BusinessPerSessionRoute, ConnectIntentRequest}
use cll.Text.{text_eq, bytes, Text}
use cll.Base.Outcome.{bail_if, ok, ok_or, ◌>>=◌, ◌>>◌, Result}
use cll.Node.Runtime.{BandwidthQuality}
use cll.Node.RoutePolicy.{RoutePolicy, unwrap_or}
use cll.Control.Policy.{RoutePolicyBinding}
use cll.Control.Error.{
  database, invalid_node_port, internal_error, no_candidate, internal, not_found, AppError,
}
use cll.Control.Table.{select_first}
use cll.Net.Display.{decimal}

pub record TicketClaims : Type 0 where
  pub claims : ClientTokenClaims
  pub route_region_id : Option ℕ
  pub route_region_name : Option Text

-- The JSON encoder of the claims.
abbrev pub EncodeClaims : Type 0
EncodeClaims = TicketClaims → Option Text

-- `sign_client_token` of the control plane.
unfoldable pub sign_ticket : Codec → EncodeClaims → TicketClaims → Text → Result AppError Text
sign_ticket codec encode claims secret = do
  payload ← ok_or (encode claims) internal
  tag ← ok_or (codec.hmac secret (signing_input (codec.encode64 payload))) internal
  ok (signing_input (codec.encode64 payload) ++ (b'.' ∷ codec.encode64 tag))

-- `CandidateRow`, without the columns of the latest report.
pub record CandidateRow : Type 0 where
  pub node_id : ℕ
  pub server_ip : Text
  pub server_port : ℕ
  pub area : Text
  pub tag : Option Text
  pub bandwidth_quality : BandwidthQuality
  pub node_secret : Text
  pub target_addr : Text
  pub protocol : Text
  pub region_id : Option ℕ
  pub region_name : Option Text

abbrev pub is_online : NodeStatus → Bool
is_online online = true
is_online other = false

-- The `WHERE` of `select_per_session_candidate`.
abbrev pub is_available : NodeRow → Bool
is_available row = is_online row.status && (not row.disable_quic && has_secret row)

abbrev pub candidate_of : BusinessPerSessionRoute → NodeRow → CandidateRow
candidate_of route row = record {
  node_id = row.id;
  server_ip = row.server_ip;
  server_port = row.server_port;
  area = row.area;
  tag = row.tag;
  bandwidth_quality = row.bandwidth_quality;
  node_secret = unwrap_or row.node_secret [];
  target_addr = route.target_addr;
  protocol = route.protocol;
  region_id = route.region_id;
  region_name = route.region_name;
}

unfoldable pub select_per_session_candidate :
    BusinessPerSessionRoute → List NodeRow → Option CandidateRow
select_per_session_candidate route nodes =
    elim (select_first (λ row. has_id route.node_id row && is_available row) nodes) [
      | none ↦ none
      | some row ↦ some (candidate_of route row)
    ]

pub record CredentialInfo : Type 0 where
  pub token : Text
  pub expires_at : ℕ
  pub intent_id : Text
  pub route_policy_hash : Option Text
  pub route_policy_id : Option Text

pub record NodeCandidate : Type 0 where
  pub node_id : ℕ
  pub area : Text
  pub tag : Text
  pub host : Text
  pub port : ℕ
  pub bandwidth_quality : BandwidthQuality
  pub target_addr : Text
  pub protocol : Text
  pub route_policy : Option RoutePolicy
  pub credential : CredentialInfo

-- The answer, without the fields that repeat the request and those of the scheduler.
pub record ConnectIntentResponse : Type 0 where
  pub intent_id : Text
  pub ttl_sec : ℕ
  pub bandwidth_quality : Text
  pub auth_context : Option BusinessAuthContext
  pub candidate : NodeCandidate

unfoldable pub intent_id_of : ConnectIntentRequest → ℕ → ℕ → Text
intent_id_of request issued_at node_id =
    bytes "intent-"
    ++ (decimal request.user_id
        ++ (b'-'
            ∷ (decimal request.game_id
                ++ (b'-' ∷ (decimal issued_at ++ (b'-' ∷ decimal node_id))))))

abbrev pub hash_of : Option RoutePolicyBinding → Option Text
hash_of none = none
hash_of (some binding) = some binding.hash

abbrev pub policy_id_of : Option RoutePolicyBinding → Option Text
policy_id_of none = none
policy_id_of (some binding) = some binding.policy.policy_id

abbrev pub policy_of : Option RoutePolicyBinding → Option RoutePolicy
policy_of none = none
policy_of (some binding) = some binding.policy

unfoldable pub ticket_claims :
    ConnectIntentRequest
    → Option BusinessAuthContext
    → CandidateRow
    → Option RoutePolicyBinding
    → ℕ
    → ℕ
    → TicketClaims
unfolding intent_id_of
ticket_claims request auth row route_policy issued_at expires_at = record {
  claims = record {
    node_id = row.node_id;
    user_id = request.user_id;
    device_id = request.device_id;
    game_id = request.game_id;
    game_key = request.game_key;
    region_id = request.region_id;
    business = auth;
    intent_id = some (intent_id_of request issued_at row.node_id);
    route_policy_hash = hash_of route_policy;
    route_policy_id = policy_id_of route_policy;
    route = some (record { target_addr = row.target_addr; protocol = row.protocol });
    expires_at = expires_at;
    issued_at = some issued_at;
    nonce =
        some (decimal issued_at ++ (b'-' ∷ (decimal row.node_id ++ (b'-' ∷ request.device_id))));
  };
  route_region_id = row.region_id;
  route_region_name = row.region_name;
}

-- The unique key of `connect_intents`: the ids that are taken.
unfoldable pub insert_connect_intent : Text → List Text → Result AppError (List Text)
insert_connect_intent intent_id intents = do
  bail_if (any (λ taken. text_eq taken intent_id) intents) database
  ok (intents ++ (intent_id ∷ []))

-- The intents, and the answer: it may still fail on the port once the intent is stored.
unfoldable pub issue_connect_intent_for_row :
    Codec
    → EncodeClaims
    → ℕ
    → ℕ
    → ConnectIntentRequest
    → Option BusinessAuthContext
    → CandidateRow
    → Option RoutePolicyBinding
    → Text
    → List Text
    → Result AppError (List Text × Result AppError ConnectIntentResponse)
unfolding insert_connect_intent
issue_connect_intent_for_row codec encode issued_at ttl_sec request auth row route_policy quality
      intents =
    do
      let expires_at = issued_at + ttl_sec
      let intent_id = intent_id_of request issued_at row.node_id
      let claims = ticket_claims request auth row route_policy issued_at expires_at
      token ← sign_ticket codec encode claims row.node_secret
      stored ← insert_connect_intent intent_id intents
      ok (
        stored,
        do
          bail_if (not (ltb row.server_port 65536)) (internal_error invalid_node_port)
          ok (record {
            intent_id = intent_id;
            ttl_sec = ttl_sec;
            bandwidth_quality = quality;
            auth_context = auth;
            candidate = record {
              node_id = row.node_id;
              area = row.area;
              tag = unwrap_or row.tag (bytes "default");
              host = row.server_ip;
              port = row.server_port;
              bandwidth_quality = row.bandwidth_quality;
              target_addr = row.target_addr;
              protocol = row.protocol;
              route_policy = policy_of route_policy;
              credential = record {
                token = token;
                expires_at = expires_at;
                intent_id = intent_id;
                route_policy_hash = hash_of route_policy;
                route_policy_id = policy_id_of route_policy;
              };
            };
          }),
      )

unfoldable pub issue_per_session_connect_intent :
    Codec
    → EncodeClaims
    → ℕ
    → ℕ
    → List NodeRow
    → ConnectIntentRequest
    → Option BusinessAuthContext
    → BusinessPerSessionRoute
    → List Text
    → Result AppError (List Text × Result AppError ConnectIntentResponse)
unfolding select_per_session_candidate issue_connect_intent_for_row
issue_per_session_connect_intent codec encode issued_at ttl_sec nodes request auth route intents =
    do
      row ← ok_or (select_per_session_candidate route nodes) (not_found no_candidate)
      issue_connect_intent_for_row codec encode issued_at ttl_sec request auth row
          route.route_policy (unwrap_or request.bandwidth_quality (bytes "normal")) intents

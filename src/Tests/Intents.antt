-- ===== src/Tests/Intents.antt =====
-- A ticket with a policy, from the request to the session.
use cll.Base.{
  length, subst, All, [], ◌∷◌, true, ◌%◌, List, none, some, ℕ, refl, inl, inr, arith, ◌≡◌,
}
use cll.Text.Map.{lookup as lookup_text}
use cll.Node.Probe.Opening.{Authenticated, next_id}
use cll.Control.Intent.{
  normalize_optional_text, validate_target_addr, route_target, route_given, auth_context,
  bound_policy, to_connect_intent_request, BusinessConnectIntentRequest, BusinessPerSessionRoute,
  per_session_route,
}
use cll.Control.Ticket.{
  sign_ticket, intent_id_of, insert_connect_intent, issue_connect_intent_for_row, candidate_of,
  CandidateRow, ConnectIntentResponse, EncodeClaims, issue_per_session_connect_intent,
  select_per_session_candidate, ticket_claims,
}
use cll.Node.Auth.{BusinessAuthContext, ClientTokenClaims}
use cll.Node.Platform.{hash_route_policy, Platform}
use cll.Control.Intent.Checks.{
  known_risk_level, check_risk_level, validate_optional_business_text, known_quality,
  validate_connect_intent_request, validate_business_connect_intent_request,
}
use cll.Node.Messages.{udp, ClientProbeRequest}
use cll.Text.{rsplit_once, to_ascii_lowercase, text_eq, trim, trim_filter, bytes}
use cll.Tests.Toy.{codec-IsBase64, peer, claims_json, codec, platform}
use cll.Control.Table.{select_first}
use cll.Tests.Tickets.{draft, binding}
use cll.Tests.Signing.{row}
use cll.Node.Runtime.{normal}
use cll.Control.Policy.{
  normalize_host, validate_port, validate_target, normalize_protocol, normalize_required_text,
  validate_route_policy,
}
use cll.Tests.Tokens.{secret, token}
use cll.Net.Display.{decimal}
use cll.Base.Outcome.{ok}
use cll.Node.Auth.Sign.{IsByte}
use cll.Node.Listener.Interleaving.{start}
use cll.Node.Probe.{build_probe_response}
use cll.Control.Ticket.Opens.{ticket_opens_session}
use cll.Net.{parse_below}

abbrev given : BusinessConnectIntentRequest
given = record {
  request_id = none;
  entitlement_id = some (bytes "e1");
  order_id = none;
  subscription_id = none;
  business_session_id = none;
  entitlement_verified = some true;
  device_verified = some true;
  entitlement_expires_at = some 5000;
  risk_level = some (bytes "low");
  business_trace_id = none;
  user_id = 9;
  device_id = bytes "pc";
  game_id = 88;
  game_key = none;
  region_id = none;
  node_id = some 7;
  target_addr = some (bytes "10.0.0.1:99");
  protocol = none;
  region_name = none;
  platform = none;
  client_isp = none;
  client_ip = none;
  bandwidth_quality = some (bytes "fast");
  client_version = none;
  route_policy = some draft;
}

abbrev route : BusinessPerSessionRoute
route = record {
  node_id = 7;
  target_addr = bytes "10.0.0.1:99";
  protocol = bytes "udp";
  region_id = none;
  region_name = none;
  route_policy = some binding;
}

abbrev chosen : CandidateRow
chosen = candidate_of route row

abbrev context : BusinessAuthContext
context = record {
  entitlement_id = some (bytes "e1");
  order_id = none;
  subscription_id = none;
  business_session_id = none;
  entitlement_verified = true;
  device_verified = true;
  entitlement_expires_at = some 5000;
  risk_level = some (bytes "low");
  business_trace_id = none;
}

abbrev ticket : ClientTokenClaims
ticket = record {
  node_id = 7;
  user_id = 9;
  device_id = bytes "pc";
  game_id = 88;
  game_key = none;
  region_id = none;
  business = some context;
  intent_id = some (bytes "intent-9-88-400-7");
  route_policy_hash = some binding.hash;
  route_policy_id = some (bytes "p1");
  route = some (record { target_addr = bytes "10.0.0.1:99"; protocol = bytes "udp" });
  expires_at = 700;
  issued_at = some 400;
  nonce = some (bytes "400-7-pc");
}

-- The stand-ins, with a reader for the claims of this ticket.
abbrev reader : Platform
reader = record platform { codec = record codec { decode_claims = λ payload. some ticket } }

abbrev encode : EncodeClaims
encode claims = some claims_json

abbrev answer : ConnectIntentResponse
answer = record {
  intent_id = bytes "intent-9-88-400-7";
  ttl_sec = 300;
  bandwidth_quality = bytes "fast";
  auth_context = some context;
  candidate = record {
    node_id = 7;
    area = bytes "a";
    tag = bytes "default";
    host = bytes "198.51.100.7";
    port = 8866;
    bandwidth_quality = normal;
    target_addr = bytes "10.0.0.1:99";
    protocol = bytes "udp";
    route_policy = some binding.policy;
    credential = record {
      token = token;
      expires_at = 700;
      intent_id = bytes "intent-9-88-400-7";
      route_policy_hash = some binding.hash;
      route_policy_id = some (bytes "p1");
    };
  };
}

routed : per_session_route reader given ≡ ok (some route)
unfolding per_session_route bound_policy validate_route_policy normalize_required_text
    normalize_protocol validate_target validate_port normalize_host trim to_ascii_lowercase text_eq
    hash_route_policy route_given route_target validate_target_addr normalize_optional_text
    trim_filter rsplit_once parse_below
routed = refl

valid_request : validate_business_connect_intent_request reader 400 given ≡ ok tt
unfolding validate_business_connect_intent_request validate_connect_intent_request known_quality
    to_connect_intent_request validate_optional_business_text check_risk_level known_risk_level trim
    text_eq trim_filter
valid_request = rw routed refl

selected : select_per_session_candidate route (row ∷ []) ≡ some chosen
unfolding select_per_session_candidate select_first
selected = refl

answered :
    issue_per_session_connect_intent reader.codec encode 400 300
      (row ∷ [])
      (to_connect_intent_request given)
      (some (auth_context given))
      route
      []
    ≡ ok (bytes "intent-9-88-400-7" ∷ [], ok answer)
unfolding issue_per_session_connect_intent select_per_session_candidate select_first
    issue_connect_intent_for_row insert_connect_intent intent_id_of ticket_claims sign_ticket
    to_connect_intent_request auth_context trim_filter trim decimal
answered = refl

abbrev probe : ClientProbeRequest
probe = record {
  client_nonce = none;
  user_id = some 9;
  device_id = none;
  game_id = none;
  region_id = none;
  transport = none;
  token = some token;
  route_policy = some binding.policy;
}

tag_bytes : (m n : ℕ) (tag : List ℕ) → some (m % 256 ∷ n % 256 ∷ []) ≡ some tag → All IsByte tag
tag_bytes m n tag h =
    let same : m % 256 ∷ n % 256 ∷ [] ≡ tag = cc in subst (All IsByte) same (omega arith)

ticket_opens_session_example :
    Authenticated
      (next_id reader 500 udp peer probe (start (some 7) (some secret)).state)
      (build_probe_response reader 500 udp peer probe (start (some 7) (some secret)).state).0
unfolding lookup_text ticket_claims to_connect_intent_request auth_context trim_filter trim
    intent_id_of decimal
ticket_opens_session_example =
    ticket_opens_session reader encode given route 400 300 (row ∷ []) chosen []
      (bytes "intent-9-88-400-7" ∷ []) answer 500 udp peer probe
      (start (some 7) (some secret)).state valid_request routed selected answered
      (record {
        base64 = record {
          round_trip = codec-IsBase64.round_trip;
          alphabet = codec-IsBase64.alphabet;
        };
        readable = λ payload h. refl;
        json_is_bytes = λ payload h.
            let same : claims_json ≡ payload = cc in subst (All IsByte) same (omega arith);
        tags_are_bytes = λ key message tag h. tag_bytes (length key) (length message) tag h;
      })
      (record {
        token = refl;
        policy = refl;
        agrees = record { user = inr refl; device = inl refl; game = inl refl; region = inl refl };
      })
      (omega arith) refl refl refl refl refl

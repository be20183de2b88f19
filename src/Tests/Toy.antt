-- ===== src/Tests/Toy.antt =====
-- Small stand-ins for the third-party code, and the data of the runs.
use cll.Base.{
  ℕ, ◌+◌, ◌-◌, ◌*◌, ◌/◌, ◌%◌, ◌≡◌, refl, ap, Option, none, some, List, [], ◌∷◌, All, arith,
  if◌then◌else◌, length,
}
use cll.Text.{Text, bytes, text_eq}
use cll.Net.{SocketAddr, v4}
use cll.Node.Auth.{Codec, ClientTokenClaims}
use cll.Node.Auth.Sign.{IsByte, IsTokenByte, IsBase64}
use cll.Node.Messages.{ClientProbeRequest}
use cll.Node.Platform.{Platform}
use cll.Node.RoutePolicy.{RoutePolicy, RouteTarget, SessionDataTarget}

-- Two letters for a byte.
abbrev pub encode64 : List ℕ → Text
encode64 [] = []
encode64 (b ∷ bs) = (97 + b / 16) ∷ (97 + b % 16) ∷ encode64 bs

abbrev pub decode64 : Text → Option (List ℕ)
decode64 [] = some []
decode64 (a ∷ []) = none
decode64 (a ∷ b ∷ t) = elim (decode64 t) [
  | none ↦ none
  | some bs ↦ some (((a - 97) * 16 + (b - 97)) ∷ bs)
]

decode-encode64 : (bs : List ℕ) → All IsByte bs → decode64 (encode64 bs) ≡ some bs
decode-encode64 [] h = refl
decode-encode64 (b ∷ bs) (h, hs) =
    rw (decode-encode64 bs hs) (ap (λ c. some (c ∷ bs)) (omega arith))

encode64-IsTokenByte : (bs : List ℕ) → All IsByte bs → All IsTokenByte (encode64 bs)
encode64-IsTokenByte [] h = tt
encode64-IsTokenByte (b ∷ bs) (h, hs) = (
  (omega arith, omega arith, λ e. absurd (omega arith)),
  ((omega arith, omega arith, λ e. absurd (omega arith)), encode64-IsTokenByte bs hs),
)

abbrev pub rule : RouteTarget
rule = record {
  target_id = bytes "game";
  purpose = none;
  host_type = bytes "CIDR";
  host = none;
  resolved_ips = [];
  observed_ips = [];
  cidrs = bytes "198.51.100.0/24" ∷ [];
  ports = record { protocol = bytes "udp"; from = 27000; to = 27100 } ∷ [];
  allow_client_observed_ip = none;
  resolve_ttl_sec = none;
  required = none;
}

abbrev pub policy : RoutePolicy
policy = record {
  policy_id = bytes "p1";
  policy_version = 1;
  mode = bytes "strict";
  default_protocol = none;
  dns_strategy = none;
  targets = rule ∷ [];
  capture = none;
}

-- The hash that the stand-ins give the policy.
abbrev pub policy_hash : Text
policy_hash = encode64 (2 ∷ [])

abbrev pub claims : ClientTokenClaims
claims = record {
  node_id = 7;
  user_id = 9;
  device_id = bytes "pc";
  game_id = 88;
  game_key = none;
  region_id = none;
  business = none;
  intent_id = none;
  route_policy_hash = some policy_hash;
  route_policy_id = some (bytes "p1");
  route = some (record { target_addr = bytes "10.0.0.1:99"; protocol = bytes "udp" });
  expires_at = 1000;
  issued_at = none;
  nonce = none;
}

-- The one JSON text of the one claims.
abbrev pub claims_json : Text
claims_json = bytes "{}"

abbrev pub codec : Codec
codec = record {
  encode64 = encode64;
  decode64 = decode64;
  hmac = λ key message. some (length key % 256 ∷ length message % 256 ∷ []);
  encode_claims = λ c. some claims_json;
  decode_claims = λ t. if text_eq t claims_json then some claims else none;
}

pub codec-IsBase64 : IsBase64 codec
codec-IsBase64 = record { round_trip = decode-encode64; alphabet = encode64-IsTokenByte }

abbrev pub request : ClientProbeRequest
request = record {
  client_nonce = none;
  user_id = some 9;
  device_id = none;
  game_id = none;
  region_id = none;
  transport = none;
  token = none;
  route_policy = some policy;
}

abbrev pub platform : Platform
platform = record {
  codec = codec;
  encode_base64 = encode64;
  decode_base64 = decode64;
  sha256 = λ text. length text % 256 ∷ [];
  policy_json = λ policy. some policy.policy_id;
  message_json = λ message. some (bytes "{}");
  read_header = λ text.
      some (record { message_type = some (bytes "probe"); protocol = some (bytes "xaccel/1") });
  read_probe = λ text. some request;
  read_session_data = λ text. none;
}

abbrev pub peer : SocketAddr
peer = record { ip = v4 0x0a000009; port = 4000 }

-- Inside the rule, and outside of it by its port.
abbrev pub target : SessionDataTarget
target = record {
  target_id = none;
  protocol = none;
  host = bytes "198.51.100.20";
  port = 27015;
  original_domain = none;
}

abbrev pub stray : SessionDataTarget
stray = record target { port = 80 }

-- ===== src/Node/Platform.antt =====
-- The third-party code that the sessions of node-core/src/session.rs stand on, and the state that the
-- tasks of a node share.
use cll.Base.{ℕ, Option, none, some, List, [], ◌∷◌, ◌++◌}
use cll.Text.{Text, bytes}
use cll.Node.Auth.{Codec}
use cll.Node.Messages.{ClientProbeRequest, ClientSessionDataRequest}
use cll.Node.Replies.{ServerMessage}
use cll.Node.RoutePolicy.{RoutePolicy}
use cll.Node.SessionStore.{SessionStore}
use cll.Node.Stats.{RuntimeStats}

-- `MessageHeader`.
pub record MessageHeader : Type 0 where
  pub message_type : Option Text
  pub protocol : Option Text

-- `encode_base64` and `decode_base64` are base64's `STANDARD`, where the codec's are its
-- `URL_SAFE_NO_PAD`; the others are `serde_json` and `Sha256::digest`.
pub record Platform : Type 0 where
  pub codec : Codec
  pub encode_base64 : List ℕ → Text
  pub decode_base64 : Text → Option (List ℕ)
  pub sha256 : Text → List ℕ
  pub policy_json : RoutePolicy → Option Text
  pub message_json : ServerMessage → Option Text
  pub read_header : Text → Option MessageHeader
  pub read_probe : Text → Option ClientProbeRequest
  pub read_session_data : Text → Option ClientSessionDataRequest

-- `RuntimeState`, as far as a request uses it.
pub record NodeState : Type 0 where
  pub node_id : Option ℕ
  pub node_secret : Option Text
  pub stats : RuntimeStats
  pub sessions : SessionStore

abbrev pub node_version : Text
node_version = bytes "0.40.0"

unfoldable pub hash_route_policy : Platform → RoutePolicy → Option Text
hash_route_policy platform policy = elim (platform.policy_json policy) [
  | none ↦ none
  | some json ↦ some (platform.codec.encode64 (platform.sha256 json))
]

-- A message in one line.
unfoldable pub encode_json_line : Platform → ServerMessage → Option Text
encode_json_line platform message = elim (platform.message_json message) [
  | none ↦ none
  | some json ↦ some (json ++ (b'\n' ∷ []))
]

-- A change of the counters.
abbrev pub count : (RuntimeStats → RuntimeStats) → NodeState → NodeState
count f state = record state { stats = f state.stats }

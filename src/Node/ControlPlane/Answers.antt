-- ===== src/Node/ControlPlane/Answers.antt =====
-- What a node makes of the answers of its control plane, node-core/src/control_plane.rs: the bodies of
-- its loops once a request is signed. Reading the JSON of an answer and writing the configuration file
-- are parameters.
use cll.Base.{◌∷◌, not, none, ◌++◌, Bool, if◌then◌else◌, some, Option, ℕ, ltb}
use cll.Node.Runtime.{config_revision, NetworkConfig, apply_remote_network_config, Runtime}
use cll.Node.Stats.{
  record_handshake_success, record_control_success, record_control_failure,
  record_handshake_failure, record_config_failure, record_config_success, RuntimeStats,
}
use cll.Text.{bytes, Text}
use cll.Node.ControlPlane.{rejection, is_success, answered, unreachable, HttpAnswer}
use cll.Net.Display.{decimal}
use cll.Node.RoutePolicy.{is_some_and}

-- The part of `RuntimeState` that the loops change.
pub record Client : Type 0 where
  pub runtime : Runtime
  pub stats : RuntimeStats

abbrev pub counted : (RuntimeStats → RuntimeStats) → Client → Client
counted f client = record client { stats = f client.stats }

-- `send_handshake` after the request: an answer that cannot be decoded is not counted.
unfoldable pub handshake_answered : ℕ → (Text → Bool) → HttpAnswer → Client → Client
handshake_answered now readable (unreachable error) client =
    counted (record_handshake_failure now none error) client
handshake_answered now readable (answered status text) client =
    if not (is_success status)
    then counted (record_handshake_failure now (some status) (rejection text)) client
    else if is_some_and text readable
    then counted (record_handshake_success now status) client
    else client

-- `send_report` after the request.
unfoldable pub report_answered : ℕ → HttpAnswer → Client → Client
report_answered now (unreachable error) client =
    counted (record_control_failure now none error) client
report_answered now (answered status text) client =
    if is_success status
    then counted (record_control_success now status) client
    else counted (record_control_failure now (some status) (rejection text)) client

-- `NodeConfigResponse`: a revision and a network.
abbrev pub RemoteConfig : Type 0
RemoteConfig = ℕ × NetworkConfig

abbrev pub unwritten : Text → Text
unwritten error = bytes "failed to persist remote node config: " ++ error

-- The last statements: the configuration is applied, and the success is counted.
unfoldable pub config_applied : ℕ → ℕ → RemoteConfig → Client → Client
config_applied now status remote client = record {
  runtime = (apply_remote_network_config remote.0 remote.1 client.runtime).0;
  stats = record_config_success now status client.stats;
}

-- What follows the writing of the file, which may have failed.
unfoldable pub config_written : ℕ → ℕ → RemoteConfig → Client → Option Text → Client × Option Text
config_written now status remote client none = (config_applied now status remote client, none)
config_written now status remote client (some error) = (
  counted (record_config_failure now (some status) (unwritten error)) client,
  some (unwritten error),
)

-- A newer configuration is written first; `persist` answers the error of it.
unfoldable pub config_received :
    (RemoteConfig → Option Text) → ℕ → ℕ → RemoteConfig → Client → Client × Option Text
config_received persist now status remote client =
    config_written now status remote client
      (if ltb (config_revision client.runtime) remote.0 then persist remote else none)

-- The answer is decoded.
unfoldable pub config_decoded :
    (RemoteConfig → Option Text) → ℕ → ℕ → Option RemoteConfig → Client → Client × Option Text
config_decoded persist now status none client =
    (client, some (bytes "failed to decode config response"))
config_decoded persist now status (some remote) client =
    config_received persist now status remote client

abbrev pub and_then : {A B : Type 0} → Option A → (A → Option B) → Option B
and_then none f = none
and_then (some a) f = f a

-- `fetch_and_apply_config` after the request, with its error.
unfoldable pub config_answered :
    (Text → Option RemoteConfig)
    → (RemoteConfig → Option Text)
    → ℕ
    → HttpAnswer
    → Client
    → Client × Option Text
config_answered decode persist now (unreachable error) client =
    (client, some (bytes "config request failed"))
config_answered decode persist now (answered status text) client =
    if is_success status then config_decoded persist now status (and_then text decode) client else (
      client,
      some (bytes "config sync rejected: http " ++ (decimal status ++ (b' ' ∷ rejection text))),
    )

abbrev pub loop_counted : ℕ → Client × Option Text → Client
loop_counted now (client, none) = client
loop_counted now (client, some error) = counted (record_config_failure now none error) client

-- The body of `run_config_loop`, which counts an error.
unfoldable pub config_loop :
    (Text → Option RemoteConfig) → (RemoteConfig → Option Text) → ℕ → HttpAnswer → Client → Client
config_loop decode persist now answer client =
    loop_counted now (config_answered decode persist now answer client)

-- ===== src/Node/Config.antt =====
-- node-core/src/config.rs: the validation of a configuration file, and the endpoints of its network.
-- Each error message is a constructor of `ConfigError`.
pub mod Validation
use cll.Base.{
  ℕ, Bool, true, false, ◌&&◌, Option, none, some, List, [], ◌∷◌, ◌++◌, ltb, ◌==◌, not,
  if◌then◌else◌, any,
}
use cll.Base.Outcome.{Result, ok, err, ◌>>=◌, ◌>>◌, bail_if}
use cll.Text.{Text, bytes, trim, is_blank, trim_filter}
use cll.Net.{parse_ip}
use cll.Net.Display.{decimal}
use cll.Node.RoutePolicy.{is_none, unwrap_or}
use cll.Node.Runtime.{NetworkConfig, listen_host}

pub record ControlPlaneConfig : Type 0 where
  pub enabled : Bool
  pub config_revision : ℕ
  pub request_timeout_sec : ℕ
  pub config_poll_interval_sec : ℕ

-- The fields of `NodeConfig` that the validation reads, those of its sections by their names.
pub record NodeConfig : Type 0 where
  pub identity_file : Text
  pub data_dir : Text
  pub log_dir : Text
  pub channel : Text
  pub network : Option NetworkConfig
  pub control : Option ControlPlaneConfig

pub data ConfigError : Type 0 where
  identity_file_required data_dir_required log_dir_required channel_required : ConfigError
  server_ip_required listen_ip_empty listen_ip_not_ip server_port_zero : ConfigError
  request_timeout_zero poll_interval_zero : ConfigError

unfoldable pub check_listen_ip : Option Text → Result ConfigError (Unit {0})
check_listen_ip none = ok tt
check_listen_ip (some listen_ip) = do
  bail_if (is_blank listen_ip) listen_ip_empty
  bail_if (is_none (parse_ip (trim listen_ip))) listen_ip_not_ip

unfoldable pub check_network : Option NetworkConfig → Result ConfigError (Unit {0})
check_network none = ok tt
check_network (some network) = do
  bail_if (is_blank network.server_ip) server_ip_required
  check_listen_ip network.listen_ip
  bail_if (network.server_port == 0) server_port_zero

unfoldable pub check_control : Option ControlPlaneConfig → Result ConfigError (Unit {0})
check_control none = ok tt
check_control (some control) = do
  bail_if (control.request_timeout_sec == 0) request_timeout_zero
  bail_if (control.config_poll_interval_sec == 0) poll_interval_zero

unfoldable pub validate : NodeConfig → Result ConfigError (Unit {0})
validate config = do
  bail_if (is_blank config.identity_file) identity_file_required
  bail_if (is_blank config.data_dir) data_dir_required
  bail_if (is_blank config.log_dir) log_dir_required
  bail_if (is_blank config.channel) channel_required
  check_network config.network
  check_control config.control

abbrev starts_with_bracket : Text → Bool
starts_with_bracket [] = false
starts_with_bracket (c ∷ t) = c == b'['

unfoldable pub socket_endpoint : Text → ℕ → Text
unfolding decimal
socket_endpoint host port =
    if any (λ c. c == b':') host && not (starts_with_bracket host)
    then b'[' ∷ (host ++ (bytes "]:" ++ decimal port))
    else host ++ (b':' ∷ decimal port)

unfoldable pub listen_endpoint : NetworkConfig → Text
listen_endpoint network = socket_endpoint (listen_host network) network.server_port

-- A relay port of its own, if there is one.
unfoldable pub relay_port : NetworkConfig → Option ℕ
relay_port network = elim network.relay_server_port [
  | none ↦ none
  | some port ↦ if ltb 0 port && not (port == network.server_port) then some port else none
]

unfoldable pub quic_listen_endpoint : NetworkConfig → Option Text
quic_listen_endpoint network = if network.disable_quic then none else elim (relay_port network) [
  | none ↦ none
  | some port ↦
      some (
        socket_endpoint (unwrap_or (trim_filter network.relay_server_ip) (listen_host network))
          port)
]

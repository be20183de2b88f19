-- ===== src/Node/Config/Validation.antt =====
-- `NodeConfig::validate` of node-core/src/config.rs against a description of what a node can run with.
use cll.Base.{◌≡◌, ◌↔◌, ◌≤◌, refl, false, Option, none, some, arith}
use cll.Base.Outcome.{ok}
use cll.Text.{Text, is_blank, trim}
use cll.Net.{IpAddr, parse_ip}
use cll.Node.Config.{
  ControlPlaneConfig, NodeConfig, check_listen_ip, check_network, check_control, validate,
}
use cll.Node.RoutePolicy.{is_none}
use cll.Node.Runtime.{NetworkConfig}

abbrev pub Each : {A : Type 0} → (A → Type 0) → Option A → Type 0
Each P none = Unit
Each P (some a) = P a

-- An address to listen on.
abbrev pub IsListenIp : Text → Type 0
IsListenIp text = (is_blank text ≡ false) × ((ip : IpAddr) × (parse_ip (trim text) ≡ some ip))

-- A network that a node can listen on.
pub record CanListen (network : NetworkConfig) : Type 0 where
  pub server_ip : is_blank network.server_ip ≡ false
  pub listen_ip : Each IsListenIp network.listen_ip
  pub server_port : 1 ≤ network.server_port

-- Requests to the control plane that can end and come again.
pub record CanPoll (control : ControlPlaneConfig) : Type 0 where
  pub request_timeout : 1 ≤ control.request_timeout_sec
  pub poll_interval : 1 ≤ control.config_poll_interval_sec

pub record CanRun (config : NodeConfig) : Type 0 where
  pub identity_file : is_blank config.identity_file ≡ false
  pub data_dir : is_blank config.data_dir ≡ false
  pub log_dir : is_blank config.log_dir ≡ false
  pub channel : is_blank config.channel ≡ false
  pub network : Each CanListen config.network
  pub control : Each CanPoll config.control

given : {A : Type 0} (o : Option A) → is_none o ≡ false → (a : A) × (o ≡ some a)
given none h = absurd (cc)
given (some a) h = (a, refl)

IsListenIp-iff : (o : Option Text) → (check_listen_ip o ≡ ok tt) ↔ Each IsListenIp o
unfolding check_listen_ip
IsListenIp-iff none = (λ h. tt, λ h. refl)
IsListenIp-iff (some text) = (
  λ h. (ground arith, given (parse_ip (trim text)) (ground arith)),
  λ (b, (ip, p)). rw (b, p) refl,
)

network_iff : (o : Option NetworkConfig) → (check_network o ≡ ok tt) ↔ Each CanListen o
unfolding check_network
network_iff none = (λ h. tt, λ h. refl)
network_iff (some network) = (
  λ h. record {
    server_ip = ground arith;
    listen_ip = (IsListenIp-iff network.listen_ip).0 (ground arith);
    server_port = ground arith;
  },
  λ c.
      let ip = (IsListenIp-iff network.listen_ip).1 c.listen_ip in
      ground (arith, c.server_ip, c.server_port),
)

control_iff : (o : Option ControlPlaneConfig) → (check_control o ≡ ok tt) ↔ Each CanPoll o
unfolding check_control
control_iff none = (λ h. tt, λ h. refl)
control_iff (some control) = (
  λ h. record { request_timeout = ground arith; poll_interval = ground arith },
  λ c. ground (arith, c.request_timeout, c.poll_interval),
)

-- A configuration is accepted exactly when its identity file, its two directories and its channel are
-- not blank; its network, if any, has a server address that is not blank, a listen address that is an
-- IP address if it has one, and a port that is not 0; and its control section, if any, has a timeout
-- and an interval that are not 0.
pub validate-ok_iff : (config : NodeConfig) → (validate config ≡ ok tt) ↔ CanRun config
unfolding validate
validate-ok_iff config = (
  λ h. record {
    identity_file = ground arith;
    data_dir = ground arith;
    log_dir = ground arith;
    channel = ground arith;
    network = (network_iff config.network).0 (ground arith);
    control = (control_iff config.control).0 (ground arith);
  },
  λ c.
      let network = (network_iff config.network).1 c.network in
      let control = (control_iff config.control).1 c.control in
      ground (arith, c.identity_file, c.data_dir, c.log_dir, c.channel),
)

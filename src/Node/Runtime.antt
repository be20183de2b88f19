-- ===== src/Node/Runtime.antt =====
-- The runtime configuration of a node, node-core/src/state.rs, and `NetworkConfig` of
-- node-core/src/config.rs.
pub mod Apply
use cll.Base.{
  ℕ, ◌<◌, max, Bool, true, false, ◌&&◌, ◌||◌, Option, none, some, List, [], ◌∷◌, ◌++◌, leb, ltb,
  ◌==◌, if◌then◌else◌, not, is_empty,
}
use cll.Text.{Text, bytes, text_eq, trim, trim_filter}

pub data BandwidthQuality : Type 0 where
  fast normal slow : BandwidthQuality

pub record OperatorIps : Type 0 where
  pub telecom_ip : Option Text
  pub mobile_ip : Option Text
  pub unicom_ip : Option Text

pub record NetworkConfig : Type 0 where
  pub server_ip : Text
  pub listen_ip : Option Text
  pub server_port : ℕ
  pub relay_server_ip : Option Text
  pub relay_server_port : Option ℕ
  pub is_support_ipv6 : Bool
  pub disable_quic : Bool
  pub area : Text
  pub bandwidth_quality : BandwidthQuality
  pub tag : Option Text
  pub operator_ips : Option OperatorIps

pub record RuntimeConfigState : Type 0 where
  pub config_revision : ℕ
  pub network : Option NetworkConfig
  pub restart_required : Bool

pub record ConfigApplyResult : Type 0 where
  pub applied : Bool
  pub restart_required : Bool
  pub previous_revision : ℕ
  pub current_revision : ℕ

-- The part of `RuntimeState` behind the lock, with the network of the configuration file and the
-- poison flag of the lock.
pub record Runtime : Type 0 where
  pub file_network : Option NetworkConfig
  pub current : RuntimeConfigState
  pub open current use *
  pub poisoned : Bool

-- The fields of `RuntimeState::new`: the control section's revision, at least 1.
unfoldable pub new_runtime : Option ℕ → Option NetworkConfig → Runtime
new_runtime control_revision network = record {
  file_network = network;
  current = record {
    config_revision = max (elim control_revision [ none ↦ 1 | some revision ↦ revision ]) 1;
    network = network;
    restart_required = false;
  };
  poisoned = false;
}

unfoldable pub config_revision : Runtime → ℕ
config_revision runtime = if runtime.poisoned then 1 else runtime.current.config_revision

abbrev or_else : {A : Type 0} → Option A → Option A → Option A
or_else none b = b
or_else (some a) b = some a

unfoldable pub effective_network : Runtime → Option NetworkConfig
effective_network runtime =
    or_else (if runtime.poisoned then none else runtime.network) runtime.file_network

-- `!=` on optional texts.
abbrev option_text_eq : Option Text → Option Text → Bool
option_text_eq none none = true
option_text_eq none (some t) = false
option_text_eq (some s) none = false
option_text_eq (some s) (some t) = text_eq s t

unfoldable pub network_listener_changed : NetworkConfig → NetworkConfig → Bool
network_listener_changed current remote =
    not (text_eq current.server_ip remote.server_ip)
    || not (option_text_eq current.listen_ip remote.listen_ip)
    || not (current.server_port == remote.server_port)

-- What the node runs with next: the remote configuration, on the endpoint that is bound if that
-- would have to change.
unfoldable pub merge_network : NetworkConfig → NetworkConfig → NetworkConfig
merge_network next remote =
    let restart = network_listener_changed next remote in
    record {
      server_ip = if restart then next.server_ip else remote.server_ip;
      listen_ip = if restart then next.listen_ip else remote.listen_ip;
      server_port = if restart then next.server_port else remote.server_port;
      relay_server_ip = remote.relay_server_ip;
      relay_server_port = remote.relay_server_port;
      is_support_ipv6 = remote.is_support_ipv6;
      disable_quic = remote.disable_quic;
      area = remote.area;
      bandwidth_quality = remote.bandwidth_quality;
      tag = remote.tag;
      operator_ips = remote.operator_ips;
    }

abbrev network_or : Option NetworkConfig → NetworkConfig → NetworkConfig
network_or none remote = remote
network_or (some network) remote = network

unfoldable pub apply_remote_network_config :
    ℕ → NetworkConfig → Runtime → Runtime × ConfigApplyResult
unfolding config_revision
apply_remote_network_config revision remote runtime =
    if runtime.poisoned
    then (
      runtime,
      record {
        applied = false;
        restart_required = false;
        previous_revision = config_revision runtime;
        current_revision = config_revision runtime;
      },
    )
    else if leb revision runtime.config_revision
    then (
      runtime,
      record {
        applied = false;
        restart_required = runtime.restart_required;
        previous_revision = runtime.config_revision;
        current_revision = runtime.config_revision;
      },
    )
    else let next_network = network_or runtime.network remote in
      let restart = runtime.restart_required || network_listener_changed next_network remote in
      (
        record runtime {
          current = record {
            config_revision = revision;
            network = some (merge_network next_network remote);
            restart_required = restart;
          };
        },
        record {
          applied = true;
          restart_required = restart;
          previous_revision = runtime.config_revision;
          current_revision = revision;
        },
      )

-- `socket_endpoint` of config.rs, with the port already in decimal.
unfoldable pub listen_host : NetworkConfig → Text
listen_host network = elim (trim_filter network.listen_ip) [
  | none ↦ trim network.server_ip
  | some host ↦ host
]

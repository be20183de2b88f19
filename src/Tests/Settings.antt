-- ===== src/Tests/Settings.antt =====
-- A configuration file, an identity file, a relay and a short history of reports.
use cll.Base.{◌≡◌, ◌%◌, ◌^◌, refl, true, false, some, none, List, [], ◌∷◌, arith}
use cll.Base.Outcome.{ok}
use cll.Text.{Text, bytes, trim}
use cll.Net.{v4, parse_ip}
use cll.Node.Config.{NodeConfig, validate}
use cll.Node.Config.Validation.{validate-ok_iff}
use cll.Node.Identity.{IdentityConfig, IdentityFile, IdentityState}
use cll.Node.Relay.{UdpUpstream, received}
use cll.Node.Runtime.{NetworkConfig, normal}
use cll.Node.Stats.Outcomes.{
  Outcome, succeeds, fails, record_outcomes, record_outcomes_lem, successes, failures, last_status,
  open_error,
}

abbrev network : NetworkConfig
network = record {
  server_ip = bytes "game.example";
  listen_ip = some (bytes "0.0.0.0");
  server_port = 5000;
  relay_server_ip = none;
  relay_server_port = none;
  is_support_ipv6 = false;
  disable_quic = false;
  area = bytes "a";
  bandwidth_quality = normal;
  tag = none;
  operator_ips = none;
}

abbrev config : NodeConfig
config = record {
  identity_file = bytes "/etc/id";
  data_dir = bytes "/var/lib";
  log_dir = bytes "/var/log";
  channel = bytes "stable";
  network = some network;
  control = none;
}

validate-ok_iff_example : validate config ≡ ok tt
unfolding trim parse_ip
validate-ok_iff_example = (validate-ok_iff config).1 (record {
  identity_file = refl;
  data_dir = refl;
  log_dir = refl;
  channel = refl;
  network = record {
    server_ip = refl;
    listen_ip = (refl, (v4 0, refl));
    server_port = omega arith;
  };
  control = tt;
})

abbrev sections : IdentityConfig
sections = record {
  node_id = some 7;
  panel_url = some (bytes "https://panel");
  response_file = none;
}

abbrev identity_file : IdentityFile
identity_file = record {
  node_id = none;
  panel_url = none;
  node_secret = some (bytes "key");
  bootstrap_response_file = none;
  created_by_installer = none;
}

abbrev identity : IdentityState
identity = record {
  node_id = some 7;
  panel_url = some (bytes "https://panel");
  node_secret_present = true;
  bootstrap_response_file = none;
  created_by_installer = false;
  node_secret = some (bytes "key");
}

abbrev upstream : UdpUpstream
upstream = record { bound = true; connected = true; sent = some 5; reply = received (1 ∷ 2 ∷ []) }

-- A success, then a failure without an answer: the latest one first.
abbrev outcomes : List Outcome
outcomes = fails 20 none (bytes "refused") ∷ (succeeds 10 200 ∷ [])

record_outcomes_lem_example :
    ((record_outcomes outcomes).succeeded ≡ successes outcomes % 2 ^ 64)
    × ((record_outcomes outcomes).failed ≡ failures outcomes % 2 ^ 64)
    × ((record_outcomes outcomes).last_http_status ≡ last_status outcomes)
    × ((record_outcomes outcomes).last_error ≡ open_error outcomes)
record_outcomes_lem_example = record_outcomes_lem outcomes

-- ===== src/Tests/Sync.antt =====
-- A node that fetches its configuration.
use cll.Node.ControlPlane.Passes.{Pass, config_loop-Pass}
use cll.Base.{true, [], false, none, ◌≡◌, Option, some, ◌∷◌, List, refl, arith}
use cll.Control.Nodes.{
  config_response, endpoint_taken, has_id, select_node_config, settings_update, NodeRow,
  NodeSettings, select_node_secret, update_admin_node_config,
}
use cll.Node.ControlPlane.{
  answered, canonical, config_path, get, sign_request, NodeRequest, node_request,
}
use cll.Control.NodeApi.{
  x_node_signature, x_node_body_sha256, x_node_nonce, x_node_timestamp, x_node_id, authenticated,
  Headers, node_config,
}
use cll.Net.Display.{decimal}
use cll.Text.{text_eq, to_ascii_lowercase, eq_ignore_ascii_case, bytes, Text, trim}
use cll.Control.Table.{update_where, select_first}
use cll.Node.Runtime.{config_revision, normal, NetworkConfig}
use cll.Node.ControlPlane.Answers.{
  config_written, config_received, config_decoded, config_answered, Client, RemoteConfig,
  config_loop,
}
use cll.Control.NodeApi.Settings.{settings_reach_node, told, TakenOver}
use cll.Control.NodeApi.Signing.{request-authenticated, Carries}
use cll.Tests.Signing.{timely, signer, sender, credentials, nonce, row}
use cll.Tests.Toy.{encode64, platform}
use cll.Base.Outcome.{ok}
use cll.Node.Stats.{failure, record_config_failure, no_stats}

abbrev settings : NodeSettings
settings = record {
  server_ip = bytes "198.51.100.7";
  server_port = 8866;
  relay_server_ip = none;
  relay_server_port = none;
  is_support_ipv6 = true;
  bandwidth_quality = normal;
  disable_quic = true;
  area = bytes "b";
  telecom_ip = none;
  mobile_ip = none;
  unicom_ip = none;
  tag = none;
}

abbrev updated_row : NodeRow
updated_row = settings_update settings row

abbrev updated : List NodeRow
updated = updated_row ∷ []

stored : update_admin_node_config 7 settings (row ∷ []) ≡ ok updated
unfolding update_admin_node_config endpoint_taken settings_update update_where eq_ignore_ascii_case
    to_ascii_lowercase text_eq
stored = refl

abbrev request : NodeRequest
request = record {
  method = get;
  path = config_path;
  node_id = 7;
  timestamp = 1000;
  nonce = nonce;
  signed = record { body_sha256 = encode64 (0 ∷ []); signature = encode64 (3 ∷ 41 ∷ []) };
  body = [];
}

abbrev headers : Headers
headers x_node_id = some (some (bytes "7"))
headers x_node_timestamp = some (some (bytes "1000"))
headers x_node_nonce = some (some nonce)
headers x_node_body_sha256 = some (some (encode64 (0 ∷ [])))
headers x_node_signature = some (some (encode64 (3 ∷ 41 ∷ [])))
headers other = none

signs : node_request platform credentials 1000 nonce get config_path [] ≡ some request
unfolding node_request sign_request canonical decimal
signs = refl

carries : Carries headers request
unfolding decimal
carries = record { id = refl; timestamp = refl; nonce = refl; hash = refl; signature = refl }

registered : select_node_secret 7 updated ≡ some (bytes "key")
unfolding select_node_secret select_first settings_update
registered = refl

known : authenticated platform 1100 updated headers get config_path [] ≡ ok sender
unfolding trim
known =
    request-authenticated platform credentials 1100 1000 updated headers nonce get config_path []
      request signer signs carries (omega arith) (omega arith) timely refl registered

kept : select_first (has_id 7) (row ∷ []) ≡ some row
unfolding select_first
kept = refl

sent : node_config platform 1100 updated headers ≡ ok (told settings row)
unfolding node_config select_node_config select_first settings_update
sent = rw known refl

-- The network that the node runs with: another area.
abbrev bound : NetworkConfig
bound = record (config_response row).1 { area = bytes "a" }

abbrev client : Client
client = record {
  runtime = record {
    file_network = some bound;
    current = record { config_revision = 2; network = some bound; restart_required = false };
    poisoned = false;
  };
  stats = no_stats;
}

abbrev decode : Text → Option RemoteConfig
decode text = some (told settings row)

settings_reach_node_example :
    TakenOver bound
      (told settings row)
      client
      (config_loop decode (λ remote. none) 1101 (answered 200 (some (bytes "{}"))) client)
settings_reach_node_example =
    settings_reach_node platform 1100 1101 7 settings (row ∷ []) updated row headers sender decode
      (λ remote. none) 200 (bytes "{}") (told settings row) client bound stored kept known refl sent
      refl refl refl refl refl (omega arith)

-- The same answer where the file cannot be written.
abbrev full_disk : RemoteConfig → Option Text
full_disk remote = some (bytes "no space left on device")

config_loop-Pass_example :
    Pass decode full_disk 1101
      (answered 200 (some (bytes "{}")))
      client
      (config_loop decode full_disk 1101 (answered 200 (some (bytes "{}"))) client)
config_loop-Pass_example =
    config_loop-Pass decode full_disk 1101 (answered 200 (some (bytes "{}"))) client

counted_twice :
    (config_loop decode full_disk 1101
      (answered 200 (some (bytes "{}")))
      client).stats.config.failed
    ≡ 2
unfolding config_loop config_answered config_decoded config_received config_written config_response
    settings_update config_revision record_config_failure failure
counted_twice = refl

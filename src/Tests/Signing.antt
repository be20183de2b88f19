-- ===== src/Tests/Signing.antt =====
-- A handshake that a node signs and its control plane checks.
use cll.Base.{
  length, true, subst, ◌⊎◌, All, ◌≤◌, ◌%◌, List, ◌≡◌, [], false, ℕ, none, some, ◌∷◌, refl, arith,
}
use cll.Node.ControlPlane.{
  canonical, handshake_path, post, read_boot_id, sign_request, Credentials, Machine, NodeHandshake,
  NodeRequest, handshake_of, next_nonce, node_request,
}
use cll.Node.Runtime.{effective_network, normal, config_revision, Runtime}
use cll.Control.Nodes.{
  draining, is_held, online, handshake_update, has_id, NodeRow, select_node_secret,
}
use cll.Text.{bytes, Text, trim}
use cll.Control.NodeApi.{
  x_node_signature, x_node_body_sha256, x_node_nonce, x_node_timestamp, node_handshake, x_node_id,
  authenticated, Headers, Sender,
}
use cll.Control.NodeApi.Signing.{Carries, IsSigner}
use cll.Net.Display.{decimal}
use cll.Control.NodeApi.Authentic.{authenticated-ok_iff, IsTimely}
use cll.Control.Table.{select_first}
use cll.Tests.Toy.{codec-IsBase64, encode64, platform}
use cll.Net.{parse_below}
use cll.Control.NodeApi.Handshake.{handshake_accepted, IsPresentable}
use cll.Base.Outcome.{ok}
use cll.Node.Auth.Sign.{IsByte}
use cll.Control.Reports.{Fleet, NodeReport}
use cll.Control.Reports.Signals.{report, signals-AllKept, handshake, signals, AllKept, Signal}

abbrev machine : Machine
machine = record {
  process_id = 42;
  node_version = bytes "0.1.0";
  os = bytes "linux";
  arch = bytes "x86_64";
  boot_id_file = some (bytes "b1");
}

abbrev pub credentials : Credentials
credentials = record { node_id = 7; node_secret = bytes "key" }

abbrev runtime : Runtime
runtime = record {
  file_network = none;
  current = record { config_revision = 4; network = none; restart_required = false };
  poisoned = false;
}

abbrev pub row : NodeRow
row = record {
  id = 7;
  server_ip = bytes "198.51.100.7";
  server_port = 8866;
  relay_server_ip = none;
  relay_server_port = none;
  is_support_ipv6 = false;
  bandwidth_quality = normal;
  disable_quic = false;
  area = bytes "a";
  telecom_ip = none;
  mobile_ip = none;
  unicom_ip = none;
  tag = none;
  status = online;
  node_secret = some (bytes "key");
  config_revision = 2;
  kernel_version = none;
  last_seen_at = none;
}

abbrev body : Text
body = bytes "{}"

abbrev pub nonce : Text
nonce = bytes "42-1000-1"

-- The signature of the stand-in for HMAC: the lengths of the key and of the message.
abbrev request : NodeRequest
request = record {
  method = post;
  path = handshake_path;
  node_id = 7;
  timestamp = 1000;
  nonce = nonce;
  signed = record { body_sha256 = encode64 (2 ∷ []); signature = encode64 (3 ∷ 45 ∷ []) };
  body = body;
}

abbrev headers : Headers
headers x_node_id = some (some (bytes "7"))
headers x_node_timestamp = some (some (bytes "1000"))
headers x_node_nonce = some (some nonce)
headers x_node_body_sha256 = some (some (encode64 (2 ∷ [])))
headers x_node_signature = some (some (encode64 (3 ∷ 45 ∷ [])))
headers other = none

pub signer : IsSigner platform (bytes "key")
signer = record {
  round_trip = codec-IsBase64.round_trip;
  tags_are_bytes = λ message tag h. tag_bytes (length message) tag h;
}
  where
    tag_bytes : (n : ℕ) (tag : List ℕ) → some (3 ∷ n % 256 ∷ []) ≡ some tag → All IsByte tag
    tag_bytes n tag h =
        let same : 3 ∷ n % 256 ∷ [] ≡ tag = cc in subst (All IsByte) same (omega arith)

signs : node_request platform credentials 1000 nonce post handshake_path body ≡ some request
unfolding node_request sign_request canonical decimal
signs = refl

carries : Carries headers request
unfolding decimal
carries = record { id = refl; timestamp = refl; nonce = refl; hash = refl; signature = refl }

pub timely : IsTimely 1100 1000
timely = record { positive = omega arith; not_early = omega arith; not_late = omega arith }

registered : select_node_secret 7 (row ∷ []) ≡ some (bytes "key")
unfolding select_node_secret select_first
registered = refl

abbrev pub sender : Sender
sender = record { node_id = 7; timestamp = 1000; nonce = nonce }

authenticated-ok_iff_example :
    authenticated platform 1100 (row ∷ []) headers post handshake_path body ≡ ok sender
unfolding trim parse_below canonical decimal
authenticated-ok_iff_example =
    (authenticated-ok_iff platform 1100 (row ∷ []) headers post handshake_path body sender).1
      (record {
        id = record { text = bytes "7"; says = refl; reads = refl };
        timestamp = record { text = bytes "1000"; says = refl; reads = refl };
        nonce = refl;
        body_sha256 = encode64 (2 ∷ []);
        hash = refl;
        signature = encode64 (3 ∷ 45 ∷ []);
        signs = refl;
        timely = timely;
        secret = bytes "key";
        registered = registered;
        is_signed = record {
          nonce_present = refl;
          hash_matches = refl;
          tag = 3 ∷ 45 ∷ [];
          decodes = refl;
          holds = refl;
        };
      })

abbrev presented : NodeHandshake
presented = handshake_of machine credentials runtime 1000 nonce

presentable : IsPresentable presented
unfolding handshake_of read_boot_id trim effective_network
presentable = record {
  positive = omega arith;
  version = refl;
  linux = refl;
  arch = refl;
  boot_id = refl;
  short = refl;
}

kept : select_first (has_id 7) (row ∷ []) ≡ some row
unfolding select_first
kept = refl

handshake_accepted_example :
    let (nodes', answer) =
      node_handshake platform (λ body. some presented) 1100 (row ∷ []) headers body in
    (answer ≡ ok (record { node_id = 7; config_revision = 4 }))
    × (select_first (has_id 7) nodes' ≡ some (handshake_update (bytes "0.1.0") 4 1000 row))
    × (4 ≤ 4)
    × ((online ≡ online) ⊎ (is_held row.status ≡ true))
unfolding next_nonce decimal config_revision handshake_update
handshake_accepted_example =
    handshake_accepted platform machine credentials runtime (λ body. some presented) 1100 1000 1
      (row ∷ []) row headers body request signer signs carries refl presentable (omega arith)
      (omega arith) timely kept refl refl

abbrev running : NodeReport
running = record {
  node_id = 7;
  config_revision = 5;
  node_version = bytes "0.1.0";
  status = bytes "ready";
  timestamp = 1000;
  udp_listening = true;
  tcp_listening = true;
  active_udp_sessions = 3;
  active_tcp_connections = 0;
}

-- A node that an operator drains.
abbrev drained : Fleet
drained = record { nodes = record row { status = draining } ∷ []; reports = [] }

abbrev sent : List Signal
sent = handshake 1100 headers body ∷ report 1100 headers body ∷ []

signals-AllKept_example :
    AllKept drained.nodes
      (signals platform (λ body. some presented) (λ body. some running) sent drained).nodes
signals-AllKept_example =
    signals-AllKept platform (λ body. some presented) (λ body. some running) sent drained

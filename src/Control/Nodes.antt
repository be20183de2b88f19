-- ===== src/Control/Nodes.antt =====
-- The table `accel_nodes` and what control-api/src/main.rs does to its rows. The status and the
-- bandwidth quality are enumerations of the schema; a small integer that stands for a truth value is
-- a Boolean.
use cll.Base.{
  ℕ, ◌+◌, max, Bool, true, false, ◌&&◌, Option, none, some, List, ◌==◌, not, is_empty, any,
  if◌then◌else◌,
}
use cll.Base.Outcome.{Result, ok, err, ◌>>◌, bail_if}
use cll.Text.{Text, bytes, text_eq, eq_ignore_ascii_case}
use cll.Node.RoutePolicy.{is_some_and}
use cll.Node.Runtime.{BandwidthQuality, NetworkConfig}
use cll.Control.Error.{
  invalid_node, bad_request, AppError, not_found, node_not_found, conflict, node_endpoint_exists,
}
use cll.Control.Table.{select_first, update_where}

pub data NodeStatus : Type 0 where
  pending_install installing online degraded draining offline install_failed disabled : NodeStatus

pub record NodeRow : Type 0 where
  pub id : ℕ
  pub server_ip : Text
  pub server_port : ℕ
  pub relay_server_ip : Option Text
  pub relay_server_port : Option ℕ
  pub is_support_ipv6 : Bool
  pub bandwidth_quality : BandwidthQuality
  pub disable_quic : Bool
  pub area : Text
  pub telecom_ip : Option Text
  pub mobile_ip : Option Text
  pub unicom_ip : Option Text
  pub tag : Option Text
  pub status : NodeStatus
  pub node_secret : Option Text
  pub config_revision : ℕ
  pub kernel_version : Option Text
  pub last_seen_at : Option ℕ

abbrev pub has_id : ℕ → NodeRow → Bool
has_id node_id row = row.id == node_id

-- `node_secret IS NOT NULL AND node_secret <> ''`.
abbrev pub has_secret : NodeRow → Bool
has_secret row = is_some_and row.node_secret (λ secret. not (is_empty secret))

unfoldable pub select_node_secret : ℕ → List NodeRow → Option Text
select_node_secret node_id nodes =
    elim (select_first (λ row. has_id node_id row && has_secret row) nodes) [
      | none ↦ none
      | some row ↦ row.node_secret
    ]

unfoldable pub select_node_config : ℕ → List NodeRow → Option NodeRow
select_node_config node_id nodes = select_first (has_id node_id) nodes

unfoldable pub ensure_admin_node_exists : ℕ → List NodeRow → Result AppError (Unit {0})
ensure_admin_node_exists node_id nodes = do
  bail_if (node_id == 0) (bad_request invalid_node)
  bail_if (not (any (has_id node_id) nodes)) (not_found node_not_found)

-- The statuses that an operator sets, and no signal of a node takes back.
abbrev pub is_held : NodeStatus → Bool
is_held disabled = true
is_held draining = true
is_held other = false

-- The body of a handshake, as far as the table keeps it.
unfoldable pub handshake_update : Text → ℕ → ℕ → NodeRow → NodeRow
handshake_update node_version config_revision seen_at row = record row {
  status = if is_held row.status then row.status else online;
  kernel_version = some node_version;
  config_revision = max row.config_revision (max config_revision 1);
  last_seen_at = some (max seen_at 1);
}

-- `persist_node_handshake`: the table, and the revision that it has then.
unfoldable pub persist_node_handshake :
    ℕ → Text → ℕ → ℕ → List NodeRow → List NodeRow × Result AppError ℕ
persist_node_handshake node_id node_version config_revision timestamp nodes =
    let updated =
      update_where (has_id node_id) (handshake_update node_version config_revision timestamp)
        nodes in
    (
      updated,
      elim (select_first (has_id node_id) updated) [
        | none ↦ err (not_found node_not_found)
        | some row ↦ ok row.config_revision
      ],
    )

-- `report_database_status`.
unfoldable pub report_database_status : Text → Bool → Bool → NodeStatus
report_database_status status udp_listening tcp_listening =
    if text_eq status (bytes "ready") && (udp_listening && tcp_listening) then online else degraded

-- The second statement of `persist_node_report`.
unfoldable pub report_update : NodeStatus → Text → ℕ → ℕ → NodeRow → NodeRow
report_update status node_version config_revision reported_at row = record row {
  status = status;
  kernel_version = some node_version;
  config_revision = max row.config_revision config_revision;
  last_seen_at = some reported_at;
}

unfoldable pub update_reported : ℕ → NodeStatus → Text → ℕ → ℕ → List NodeRow → List NodeRow
update_reported node_id status node_version config_revision reported_at nodes =
    update_where (λ row. has_id node_id row && not (is_held row.status))
      (report_update status node_version config_revision reported_at) nodes

-- The columns that an operator gives: the values of `normalize_create_node_request`.
pub record NodeSettings : Type 0 where
  pub server_ip : Text
  pub server_port : ℕ
  pub relay_server_ip : Option Text
  pub relay_server_port : Option ℕ
  pub is_support_ipv6 : Bool
  pub bandwidth_quality : BandwidthQuality
  pub disable_quic : Bool
  pub area : Text
  pub telecom_ip : Option Text
  pub mobile_ip : Option Text
  pub unicom_ip : Option Text
  pub tag : Option Text

-- The update of `update_admin_node_config`.
unfoldable pub settings_update : NodeSettings → NodeRow → NodeRow
settings_update node row = record row {
  server_ip = node.server_ip;
  server_port = node.server_port;
  relay_server_ip = node.relay_server_ip;
  relay_server_port = node.relay_server_port;
  is_support_ipv6 = node.is_support_ipv6;
  bandwidth_quality = node.bandwidth_quality;
  disable_quic = node.disable_quic;
  area = node.area;
  telecom_ip = node.telecom_ip;
  mobile_ip = node.mobile_ip;
  unicom_ip = node.unicom_ip;
  tag = node.tag;
  config_revision = row.config_revision + 1;
}

-- `select_node_id_by_endpoint`, with the id of the node that is left out of the search. Texts are
-- compared as MySQL's default collation does, without regard to case.
unfoldable pub endpoint_taken : Text → ℕ → ℕ → List NodeRow → Bool
endpoint_taken server_ip server_port exclude_node_id nodes =
    any
      (λ row.
        eq_ignore_ascii_case row.server_ip server_ip
        && (row.server_port == server_port && not (row.id == exclude_node_id)))
      nodes

-- The settings are normalised already.
unfoldable pub update_admin_node_config :
    ℕ → NodeSettings → List NodeRow → Result AppError (List NodeRow)
unfolding endpoint_taken
update_admin_node_config node_id node nodes = do
  bail_if (endpoint_taken node.server_ip node.server_port node_id nodes)
      (conflict node_endpoint_exists)
  bail_if (not (any (has_id node_id) nodes)) (not_found node_not_found)
  ok (update_where (has_id node_id) (settings_update node) nodes)

-- The table, and the status before.
unfoldable pub update_admin_node_status :
    ℕ → NodeStatus → List NodeRow → Result AppError (List NodeRow × NodeStatus)
update_admin_node_status node_id next_status nodes = elim (select_first (has_id node_id) nodes) [
  | none ↦ err (not_found node_not_found)
  | some row ↦
      ok (update_where (has_id node_id) (λ r. record r { status = next_status }) nodes, row.status)
]

-- `NodeConfigResponse::from_row`: the revision and the network that a node is sent.
unfoldable pub config_response : NodeRow → ℕ × NetworkConfig
config_response row = (
  max row.config_revision 1,
  record {
    server_ip = row.server_ip;
    listen_ip = some (bytes "0.0.0.0");
    server_port = row.server_port;
    relay_server_ip = row.relay_server_ip;
    relay_server_port = row.relay_server_port;
    is_support_ipv6 = row.is_support_ipv6;
    disable_quic = row.disable_quic;
    area = row.area;
    bandwidth_quality = row.bandwidth_quality;
    tag = row.tag;
    operator_ips = some (record {
      telecom_ip = row.telecom_ip;
      mobile_ip = row.mobile_ip;
      unicom_ip = row.unicom_ip;
    });
  },
)

-- ===== src/Control/Reports.antt =====
-- The reports of the nodes to control-api/src/main.rs: the table `node_runtime_reports`, and what a
-- report does to the row of its node.
pub mod Signals
use cll.Base.{not, [], ◌==◌, ◌∷◌, ◌++◌, Bool, Option, max, ◌-◌, ◌^◌, List, ℕ, ◌+◌, min}
use cll.Control.Nodes.{NodeRow, report_database_status, update_reported}
use cll.Node.Platform.{Platform}
use cll.Base.Outcome.{ok_or, bail_if, ok, err, ◌>>=◌, ◌>>◌, Result}
use cll.Text.{is_blank, Text}
use cll.Control.Error.{
  invalid_report_timestamp, invalid_status, invalid_node_version, invalid_report, node_id_mismatch,
  invalid_node, bad_request, AppError,
}
use cll.Control.NodeApi.{authenticated, Headers}
use cll.Node.ControlPlane.{report_path, post}

-- `NodeReportRequest`, with the fields of its health that the control plane reads.
pub record NodeReport : Type 0 where
  pub node_id : ℕ
  pub config_revision : ℕ
  pub node_version : Text
  pub status : Text
  pub timestamp : ℕ
  pub udp_listening : Bool
  pub tcp_listening : Bool
  pub active_udp_sessions : ℕ
  pub active_tcp_connections : ℕ

pub record ReportRow : Type 0 where
  pub node_id : ℕ
  pub config_revision : ℕ
  pub status : Text
  pub active_sessions : ℕ
  pub udp_sessions : ℕ
  pub tcp_sessions : ℕ
  pub reported_at : ℕ

-- The two tables.
pub record Fleet : Type 0 where
  pub nodes : List NodeRow
  pub reports : List ReportRow

unfoldable pub validate_node_report_request : ℕ → NodeReport → Result AppError (Unit {0})
validate_node_report_request header_node_id report = do
  bail_if (report.node_id == 0) (bad_request invalid_node)
  bail_if (not (report.node_id == header_node_id)) (bad_request node_id_mismatch)
  bail_if (is_blank report.node_version) (bad_request invalid_node_version)
  bail_if (is_blank report.status) (bad_request invalid_status)
  bail_if (report.timestamp == 0) (bad_request invalid_report_timestamp)

unfoldable pub clamp_u32 : ℕ → ℕ
clamp_u32 value = min value (2 ^ 32 - 1)

-- `saturating_add` of 32 bits.
unfoldable pub report_row : NodeReport → ReportRow
unfolding clamp_u32
report_row report = record {
  node_id = report.node_id;
  config_revision = report.config_revision;
  status = report.status;
  active_sessions =
      min (clamp_u32 report.active_udp_sessions + clamp_u32 report.active_tcp_connections)
        (2 ^ 32 - 1);
  udp_sessions = clamp_u32 report.active_udp_sessions;
  tcp_sessions = clamp_u32 report.active_tcp_connections;
  reported_at = max report.timestamp 1;
}

-- `persist_node_report`, both statements.
unfoldable pub persist_node_report : NodeReport → Fleet → Fleet
unfolding report_row
persist_node_report report fleet = record {
  nodes =
      update_reported report.node_id
        (report_database_status report.status report.udp_listening report.tcp_listening)
        report.node_version report.config_revision (max report.timestamp 1) fleet.nodes;
  reports = fleet.reports ++ (report_row report ∷ []);
}

unfoldable pub checked_report :
    Platform
    → (Text → Option NodeReport)
    → ℕ
    → List NodeRow
    → Headers
    → Text
    → Result AppError NodeReport
checked_report platform read_report now nodes headers body = do
  sender ← authenticated platform now nodes headers post report_path body
  report ← ok_or (read_report body) (bad_request invalid_report)
  validate_node_report_request sender.node_id report
  ok report

abbrev pub stored_report : Fleet → Result AppError NodeReport → Fleet × Result AppError ℕ
stored_report fleet (err error) = (fleet, err error)
stored_report fleet (ok report) = (persist_node_report report fleet, ok report.node_id)

unfoldable pub node_report :
    Platform → (Text → Option NodeReport) → ℕ → Headers → Text → Fleet → Fleet × Result AppError ℕ
node_report platform read_report now headers body fleet =
    stored_report fleet (checked_report platform read_report now fleet.nodes headers body)

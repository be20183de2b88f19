-- ===== src/Control/Ticket/Choice.antt =====
-- The choice of a node for a game: `select_candidate` and `issue_connect_intent` of
-- control-api/src/main.rs. The rows of the table `game_route_rules` are in the order of their ids;
-- where the query leaves two rows in no order, the first of them is taken.
pub mod Best
use cll.Base.{
  [], if◌then◌else◌, ◌&&◌, ◌-◌, false, none, some, true, ◌==◌, ◌^◌, ◌∷◌, Bool, List, Option, ℕ, ltb,
}
use cll.Control.Nodes.{has_id, NodeRow}
use cll.Control.Reports.{ReportRow}
use cll.Control.Intent.{ConnectIntentRequest}
use cll.Node.Runtime.{slow, normal, fast, BandwidthQuality}
use cll.Control.Ticket.{
  issue_connect_intent_for_row, ConnectIntentResponse, is_available, EncodeClaims, CandidateRow,
}
use cll.Node.Auth.{BusinessAuthContext, Codec}
use cll.Text.{text_eq, bytes, Text}
use cll.Node.RoutePolicy.{unwrap_or}
use cll.Control.Table.{select_first}
use cll.Base.Outcome.{ok_or, ◌>>=◌, ◌>>◌, Result}
use cll.Control.Error.{no_candidate, not_found, AppError}

pub record RouteRule : Type 0 where
  pub game_id : ℕ
  pub region_id : Option ℕ
  pub region_name : Option Text
  pub node_id : ℕ
  pub target_addr : Text
  pub protocol : Text
  pub priority : ℕ
  pub enabled : Bool

-- A row of the join.
pub record Offer : Type 0 where
  pub rule : RouteRule
  pub node : NodeRow
  pub latest : Option ReportRow

-- `ORDER BY reported_at DESC, id DESC LIMIT 1`.
abbrev later_of : ReportRow → Option ReportRow → ReportRow
later_of report none = report
later_of report (some other) = if ltb other.reported_at report.reported_at then report else other

unfoldable pub latest_report : ℕ → List ReportRow → Option ReportRow
latest_report node_id [] = none
latest_report node_id (report ∷ reports) =
    let later = latest_report node_id reports in
    if report.node_id == node_id then some (later_of report later) else later

-- The region of the request, or no region.
abbrev pub region_fits : Option ℕ → Option ℕ → Bool
region_fits wanted none = true
region_fits none (some region) = false
region_fits (some wanted) (some region) = region == wanted

-- The `WHERE`.
unfoldable pub is_offered : ConnectIntentRequest → RouteRule → NodeRow → Bool
is_offered request rule node =
    rule.game_id == request.game_id
    && (rule.enabled
        && (text_eq rule.protocol (bytes "udp")
            && (is_available node && region_fits request.region_id rule.region_id)))

abbrev pub with_offer : Bool → Offer → List Offer → List Offer
with_offer true offer rest = offer ∷ rest
with_offer false offer rest = rest

abbrev pub offer_of : List ReportRow → RouteRule → NodeRow → Offer
offer_of reports rule node = record {
  rule = rule;
  node = node;
  latest = latest_report node.id reports;
}

-- A rule with its node, if the node is there.
abbrev pub with_node :
    ConnectIntentRequest → List ReportRow → RouteRule → Option NodeRow → List Offer → List Offer
with_node request reports rule none rest = rest
with_node request reports rule (some node) rest =
    with_offer (is_offered request rule node) (offer_of reports rule node) rest

unfoldable pub offers :
    ConnectIntentRequest → List NodeRow → List ReportRow → List RouteRule → List Offer
offers request nodes reports [] = []
offers request nodes reports (rule ∷ rules) =
    with_node request reports rule (select_first (has_id rule.node_id) nodes)
      (offers request nodes reports rules)

abbrev region_rank : Option ℕ → Option ℕ → ℕ
region_rank none region = 0
region_rank (some wanted) none = 1
region_rank (some wanted) (some region) = if region == wanted then 0 else 2

abbrev quality_text : BandwidthQuality → Text
quality_text fast = bytes "fast"
quality_text normal = bytes "normal"
quality_text slow = bytes "slow"

-- No report, or one of more than 90 seconds ago.
abbrev stale_rank : ℕ → Option ReportRow → ℕ
stale_rank now none = 1
stale_rank now (some report) = if ltb 90 (now - report.reported_at) then 1 else 0

abbrev load_of : (ReportRow → ℕ) → Option ReportRow → ℕ
load_of f none = 0
load_of f (some report) = f report

-- `last_seen_at DESC`, of 64 bits: what was never seen comes last.
abbrev seen_rank : Option ℕ → ℕ
seen_rank none = 2 ^ 64
seen_rank (some seen) = 2 ^ 64 - seen

-- The `ORDER BY`, the first key in front.
unfoldable pub rank : ℕ → ConnectIntentRequest → Text → Offer → List ℕ
rank now request quality offer =
    region_rank request.region_id offer.rule.region_id
    ∷ (if text_eq (quality_text offer.node.bandwidth_quality) quality then 0 else 1)
    ∷ stale_rank now offer.latest
    ∷ offer.rule.priority
    ∷ load_of (λ report. report.active_sessions) offer.latest
    ∷ load_of (λ report. report.udp_sessions) offer.latest
    ∷ seen_rank offer.node.last_seen_at
    ∷ offer.node.id
    ∷ []

-- The first key that differs decides.
unfoldable pub precedes : List ℕ → List ℕ → Bool
precedes [] ranks = false
precedes (m ∷ ms) [] = false
precedes (m ∷ ms) (n ∷ ns) = let rest = precedes ms ns in if m == n then rest else ltb m n

abbrev pub better : (Offer → List ℕ) → Offer → Option Offer → Offer
better key offer none = offer
better key offer (some other) = if precedes (key other) (key offer) then other else offer

-- `ORDER BY … LIMIT 1`.
unfoldable pub first_by : (Offer → List ℕ) → List Offer → Option Offer
first_by key [] = none
first_by key (offer ∷ rest) = some (better key offer (first_by key rest))

abbrev pub candidate_row : Offer → CandidateRow
candidate_row offer = record {
  node_id = offer.node.id;
  server_ip = offer.node.server_ip;
  server_port = offer.node.server_port;
  area = offer.node.area;
  tag = offer.node.tag;
  bandwidth_quality = offer.node.bandwidth_quality;
  node_secret = unwrap_or offer.node.node_secret [];
  target_addr = offer.rule.target_addr;
  protocol = offer.rule.protocol;
  region_id = offer.rule.region_id;
  region_name = offer.rule.region_name;
}

abbrev pub row_of : Option Offer → Option CandidateRow
row_of none = none
row_of (some offer) = some (candidate_row offer)

unfoldable pub select_candidate :
    ℕ
    → ConnectIntentRequest
    → Text
    → List NodeRow
    → List ReportRow
    → List RouteRule
    → Option CandidateRow
select_candidate now request quality nodes reports rules =
    row_of (first_by (rank now request quality) (offers request nodes reports rules))

unfoldable pub issue_connect_intent :
    Codec
    → EncodeClaims
    → ℕ
    → ℕ
    → List NodeRow
    → List ReportRow
    → List RouteRule
    → ConnectIntentRequest
    → Option BusinessAuthContext
    → List Text
    → Result AppError (List Text × Result AppError ConnectIntentResponse)
issue_connect_intent codec encode issued_at ttl_sec nodes reports rules request auth intents = do
  let quality = unwrap_or request.bandwidth_quality (bytes "normal")
  row ←
      ok_or (select_candidate issued_at request quality nodes reports rules)
        (not_found no_candidate)
  issue_connect_intent_for_row codec encode issued_at ttl_sec request auth row none quality intents

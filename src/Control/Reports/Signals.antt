-- ===== src/Control/Reports/Signals.antt =====
-- What the handshakes and the reports of nodes leave as it is, for control-api/src/main.rs.
use cll.Base.{
  false, if◌then◌else◌, not, ◌≤◌, Option, ap, true, Bool, [], arith, ◌∙◌, ◌∷◌, ◌≡◌, List, ℕ, refl,
}
use cll.Node.Platform.{Platform}
use cll.Control.Nodes.{
  has_id, update_reported, persist_node_handshake, NodeStatus, is_held, config_response, NodeRow,
  handshake_update, report_update,
}
use cll.Control.Table.{update_where}
use cll.Control.NodeApi.{then_with, node_handshake, answer_handshake, Headers}
use cll.Text.{Text}
use cll.Base.Outcome.{ok, err, Result}
use cll.Control.Error.{AppError}
use cll.Node.ControlPlane.{NodeHandshake}
use cll.Control.Reports.{stored_report, node_report, Fleet, persist_node_report, NodeReport}

-- What a node reaches the control plane with.
pub data Signal : Type 0 where
  handshake : (now : ℕ) → Headers → Text → Signal
  report : (now : ℕ) → Headers → Text → Signal

module _ (platform : Platform) (read_handshake : Text → Option NodeHandshake)
    (read_report : Text → Option NodeReport) where
  unfoldable pub signal : Signal → Fleet → Fleet
  signal (handshake now headers body) fleet = record fleet {
    nodes = (node_handshake platform read_handshake now fleet.nodes headers body).0;
  }
  signal (report now headers body) fleet =
      (node_report platform read_report now headers body fleet).0

  unfoldable pub signals : List Signal → Fleet → Fleet
  signals [] fleet = fleet
  signals (s ∷ ss) fleet = signals ss (signal s fleet)

-- What no node changes of a row: who it is, where it is, its secret, that an operator holds it, and
-- that its revision does not fall.
pub record Kept (before after : NodeRow) : Type 0 where
  pub same_id : after.id ≡ before.id
  pub same_secret : after.node_secret ≡ before.node_secret
  pub same_network : (config_response after).1 ≡ (config_response before).1
  pub held : is_held before.status ≡ true → after.status ≡ before.status
  pub revision : before.config_revision ≤ after.config_revision

-- Row by row.
pub data AllKept : List NodeRow → List NodeRow → Type 0 where
  no_rows : AllKept [] []
  row_kept :
      {before after : NodeRow} {befores afters : List NodeRow}
      → Kept before after
      → AllKept befores afters
      → AllKept (before ∷ befores) (after ∷ afters)

Kept-refl : (row : NodeRow) → Kept row row
Kept-refl row = record {
  same_id = refl;
  same_secret = refl;
  same_network = refl;
  held = λ h. refl;
  revision = omega arith;
}

Kept-trans : {a b c : NodeRow} → Kept a b → Kept b c → Kept a c
Kept-trans {a} {b} {c} h k = record {
  same_id = k.same_id ∙ h.same_id;
  same_secret = k.same_secret ∙ h.same_secret;
  same_network = k.same_network ∙ h.same_network;
  held = λ e. let still : b.status ≡ a.status = h.held e in k.held (ap is_held still ∙ e) ∙ still;
  revision = omega (arith, h.revision, k.revision);
}

AllKept-refl : (rows : List NodeRow) → AllKept rows rows
AllKept-refl [] = no_rows
AllKept-refl (row ∷ rows) = row_kept (Kept-refl row) (AllKept-refl rows)

AllKept-trans : {a b c : List NodeRow} → AllKept a b → AllKept b c → AllKept a c
AllKept-trans no_rows later = later
AllKept-trans (row_kept h hs) (row_kept k ks) = row_kept (Kept-trans h k) (AllKept-trans hs ks)

update-AllKept :
    (p : NodeRow → Bool) (f : NodeRow → NodeRow)
    → ((row : NodeRow) → p row ≡ true → Kept row (f row))
    → (rows : List NodeRow) → AllKept rows (update_where p f rows)
unfolding update_where
update-AllKept p f keep [] = no_rows
update-AllKept p f keep (row ∷ rows) =
    row_kept (choose (p row) (keep row)) (update-AllKept p f keep rows)
  where
    choose : (b : Bool) → (b ≡ true → Kept row (f row)) → Kept row (if b then f row else row)
    choose true changed = changed refl
    choose false changed = Kept-refl row

handshake-Kept :
    (version : Text) (revision seen_at : ℕ) (row : NodeRow)
    → Kept row (handshake_update version revision seen_at row)
unfolding handshake_update config_response
handshake-Kept version revision seen_at row = record {
  same_id = refl;
  same_secret = refl;
  same_network = refl;
  held = λ h. rw h refl;
  revision = omega arith;
}

report-Kept :
    (status : NodeStatus) (version : Text) (revision reported_at : ℕ) (row : NodeRow)
    → not (is_held row.status) ≡ true
    → Kept row (report_update status version revision reported_at row)
unfolding report_update config_response
report-Kept status version revision reported_at row free = record {
  same_id = refl;
  same_secret = refl;
  same_network = refl;
  held = λ h. absurd (cc);
  revision = omega arith;
}

handled_kept :
    (nodes : List NodeRow) (node_id : ℕ) (r : List NodeRow × Result AppError ℕ)
    → AllKept nodes r.0
    → AllKept nodes (answer_handshake node_id r).0
handled_kept nodes node_id (nodes', err error) h = h
handled_kept nodes node_id (nodes', ok revision) h = h

module _ (platform : Platform) (read_handshake : Text → Option NodeHandshake)
    (read_report : Text → Option NodeReport) where
  accepted_kept :
      (nodes : List NodeRow) (checked : Result AppError NodeHandshake)
      → AllKept nodes
          (then_with nodes checked (λ request. answer_handshake request.node_id (
            persist_node_handshake request.node_id request.node_version request.config_revision
              request.timestamp nodes))).0
  unfolding persist_node_handshake
  accepted_kept nodes (err error) = AllKept-refl nodes
  accepted_kept nodes (ok request) = handled_kept nodes request.node_id _ (
      update-AllKept (has_id request.node_id) _
        (λ row h. handshake-Kept request.node_version request.config_revision request.timestamp row)
        nodes)

  reported_kept :
      (fleet : Fleet) (checked : Result AppError NodeReport)
      → AllKept fleet.nodes (stored_report fleet checked).0.nodes
  unfolding persist_node_report update_reported
  reported_kept fleet (err error) = AllKept-refl fleet.nodes
  reported_kept fleet (ok sent) =
      update-AllKept _ _
        (λ row h. report-Kept _ sent.node_version sent.config_revision _ row (ground arith))
        fleet.nodes

  signal-AllKept :
      (s : Signal) (fleet : Fleet)
      → AllKept fleet.nodes (signal platform read_handshake read_report s fleet).nodes
  unfolding signal node_handshake node_report
  signal-AllKept (handshake now headers body) fleet = accepted_kept fleet.nodes _
  signal-AllKept (report now headers body) fleet = reported_kept fleet _

  -- Whatever nodes send, in any order, each row of the table stays in its place with its id, its secret
  -- and its network; its revision does not fall; and a row that an operator has disabled or set to
  -- draining keeps that status.
  pub signals-AllKept :
      (ss : List Signal) (fleet : Fleet)
      → AllKept fleet.nodes (signals platform read_handshake read_report ss fleet).nodes
  unfolding signals
  signals-AllKept [] fleet = AllKept-refl fleet.nodes
  signals-AllKept (s ∷ ss) fleet =
      AllKept-trans (signal-AllKept s fleet)
        (signals-AllKept ss (signal platform read_handshake read_report s fleet))

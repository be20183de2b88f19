-- ===== src/Tests/Choices.antt =====
-- Two nodes for one game.
use cll.Base.{◌≡◌, true, [], none, some, ◌∷◌, List, refl}
use cll.Control.Ticket.Choice.Best.{Choice}
use cll.Control.Intent.{ConnectIntentRequest}
use cll.Control.Ticket.Choice.{
  offer_of, candidate_row, latest_report, first_by, precedes, rank, is_offered, offers, RouteRule,
  select_candidate,
}
use cll.Text.{text_eq, bytes}
use cll.Control.Nodes.{NodeRow}
use cll.Tests.Signing.{row}
use cll.Control.Table.{select_first}

abbrev request : ConnectIntentRequest
request = record {
  user_id = 9;
  device_id = bytes "pc";
  game_id = 88;
  game_key = none;
  region_id = some 3;
  platform = none;
  client_isp = none;
  client_ip = none;
  bandwidth_quality = some (bytes "normal");
}

-- A rule for every region on node 7, and one for region 3 on node 8.
abbrev anywhere : RouteRule
anywhere = record {
  game_id = 88;
  region_id = none;
  region_name = none;
  node_id = 7;
  target_addr = bytes "10.0.0.1:99";
  protocol = bytes "udp";
  priority = 1;
  enabled = true;
}

abbrev regional : RouteRule
regional = record anywhere { region_id = some 3; node_id = 8; priority = 100 }

abbrev rules : List RouteRule
rules = anywhere ∷ regional ∷ []

abbrev fleet : List NodeRow
fleet = row ∷ record row { id = 8 } ∷ []

-- The region weighs more than the priority.
regional_chosen :
    select_candidate 500 request (bytes "normal") fleet [] rules
    ≡ some (candidate_row (offer_of [] regional (record row { id = 8 })))
unfolding select_candidate offers select_first is_offered rank precedes first_by latest_report
    text_eq
regional_chosen = refl

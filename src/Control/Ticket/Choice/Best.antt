-- ===== src/Control/Ticket/Choice/Best.antt =====
-- What `select_candidate` of control-api/src/main.rs chooses.
use cll.Base.{◌⊎◌, some, none, [], All, Option, false, true, length, ◌≡◌, ℕ, List}
use cll.Control.Ticket.Choice.{offer_of, candidate_row, rank, RouteRule, Offer, precedes}
use cll.Control.Intent.{ConnectIntentRequest}
use cll.Text.{bytes, Text}
use cll.Control.Nodes.{has_secret, online, has_id, NodeRow}
use cll.Control.Reports.{ReportRow}
use cll.Control.Table.{select_first}
use cll.Node.RoutePolicy.Match.{Any}
use cll.Control.Ticket.{CandidateRow}

module _ (key : Offer → List ℕ) (size : ℕ) (sized : (o : Offer) → length (key o) ≡ size) where
  -- No offer of the list comes before this one.
  abbrev Least : Offer → List Offer → Type 0
  Least offer os = All (λ o. precedes (key o) (key offer) ≡ false) os

  -- What is taken from a list: the least of its offers, if it has any.
  data Taken (P : Offer → Type 0) (os : List Offer) (result : Option Offer) : Type 0 where
    empty : os ≡ [] → result ≡ none → Taken P os result
    least : (offer : Offer) → P offer → Least offer os → result ≡ some offer → Taken P os result

module _ (now : ℕ) (request : ConnectIntentRequest) (quality : Text) (nodes : List NodeRow)
    (reports : List ReportRow) where
  -- A rule of the game, enabled, for UDP and for the region of the request or for none, with its node,
  -- which is online, takes UDP and has a secret.
  pub record Eligible (rule : RouteRule) (node : NodeRow) : Type 0 where
    pub found : select_first (has_id rule.node_id) nodes ≡ some node
    pub game : rule.game_id ≡ request.game_id
    pub enabled : rule.enabled ≡ true
    pub for_udp : rule.protocol ≡ bytes "udp"
    pub region : (rule.region_id ≡ none) ⊎ (rule.region_id ≡ request.region_id)
    pub is_up : node.status ≡ online
    pub takes_udp : node.disable_quic ≡ false
    pub keyed : has_secret node ≡ true

  -- A property of every eligible rule.
  abbrev pub Every : (RouteRule → NodeRow → Type 0) → List RouteRule → Type 0
  Every P rules = All (λ rule. (node : NodeRow) → Eligible rule node → P rule node) rules

  -- An offer comes from one of the rules.
  abbrev pub From : List RouteRule → Offer → Type 0
  From rules offer =
      Any (λ rule. (node : NodeRow) × Eligible rule node × (offer ≡ offer_of reports rule node))
        rules

  pub data Choice (rules : List RouteRule) (result : Option CandidateRow) : Type 0 where
    nobody : Every (λ rule node. ⊥) rules → result ≡ none → Choice rules result
    chosen :
        (offer : Offer)
        → From rules offer
        → Every
            (λ rule node.
              precedes
                (rank now request quality (offer_of reports rule node))
                (rank now request quality offer)
              ≡ false)
            rules
        → result ≡ some (candidate_row offer)
        → Choice rules result

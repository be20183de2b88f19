-- ===== src/Node/Target/Permitted.antt =====
-- The endpoints that a session of node-core/src/session.rs may be relayed to.
use cll.Base.{
  ◌≡◌, refl, sym, ap, ◌∙◌, false, Option, none, some, arith, Option-cases, inl, inr, ◌≢◌,
}
use cll.Base.Outcome.{Result, ok, err, ok_or, >>=-eq-ok}
use cll.Text.{Text, bytes, trim_filter}
use cll.Node.Messages.{ClientSessionDataRequest}
use cll.Node.Relay.{RelayProtocol, parse_protocol}
use cll.Node.RoutePolicy.{
  RoutePolicy, SessionDataTarget, TargetMatch, unwrap_or, match_route_policy_target,
}
use cll.Node.Target.{
  PendingTarget, has_session_target, host_port, or_else, not_in_policy, policy_target, given_addr,
  host_target, fixed_target, session_target,
}

-- An endpoint and a protocol that a session may be relayed to. With a policy: the endpoint of a
-- target that the policy matches. With an address from its token and no policy: that address. With
-- neither: what the request asks for.
pub data Permitted (policy : Option RoutePolicy) (addr : Option Text)
    : Text → RelayProtocol → Type 0 where
  by_policy :
      (p : RoutePolicy) (target : SessionDataTarget) (m : TargetMatch) (protocol : RelayProtocol)
      → policy ≡ some p
      → match_route_policy_target p target ≡ ok m
      → parse_protocol (unwrap_or (or_else target.protocol p.default_protocol) (bytes "udp"))
        ≡ ok protocol
      → Permitted policy addr (host_port target.host target.port) protocol
  by_address :
      (endpoint : Text) (protocol : RelayProtocol)
      → policy ≡ none
      → trim_filter addr ≡ some endpoint
      → Permitted policy addr endpoint protocol
  by_wish :
      (endpoint : Text) (protocol : RelayProtocol)
      → policy ≡ none
      → trim_filter addr ≡ none
      → Permitted policy addr endpoint protocol

not_in_policy-eq-ok : {A : Type 0} (r : Result _ A) {a : A} → not_in_policy r ≡ ok a → r ≡ ok a
not_in_policy-eq-ok (ok a) h = cc
not_in_policy-eq-ok (err c) h = cc

policy_target-Permitted :
    (p : RoutePolicy) (request : ClientSessionDataRequest) (addr : Option Text)
    (target : PendingTarget)
    → policy_target p request ≡ ok target
    → Permitted (some p) addr target.endpoint target.protocol
unfolding policy_target
policy_target-Permitted p request addr target h =
    let (wanted, w, h1) = >>=-eq-ok (ok_or request.target _) _ h in
    let default = or_else wanted.protocol p.default_protocol in
    let (protocol, q, h2) = >>=-eq-ok (parse_protocol (unwrap_or default (bytes "udp"))) _ h1 in
    let (m, r, h3) = >>=-eq-ok (not_in_policy (match_route_policy_target p wanted)) _ h2 in
    let same : target ≡ record {
      protocol = protocol;
      endpoint = host_port wanted.host wanted.port;
      policy_match = some m;
    } =
      cc in
    rw same (by_policy p wanted m protocol refl (not_in_policy-eq-ok _ r) q)

fixed_target-Permitted :
    (request : ClientSessionDataRequest) (addr : Option Text) (target : PendingTarget)
    → fixed_target addr request ≡ ok (some target)
    → Permitted none addr target.endpoint target.protocol
unfolding fixed_target
fixed_target-Permitted request addr target h =
    let (protocol, q, h1) =
      >>=-eq-ok (parse_protocol (unwrap_or request.target_protocol (bytes "udp"))) _ h in
    elim (Option-cases (trim_filter addr)) [
      | inl n ↦ by_wish target.endpoint target.protocol refl n
      | inr (endpoint, e) ↦
          let same : target.endpoint ≡ endpoint = unfold given_addr in ground (arith) in
          by_address target.endpoint target.protocol refl (e ∙ ap some (sym same))
    ]

-- A target that a session finds is one that the session permits.
pub session_target-Permitted :
    (request : ClientSessionDataRequest) (addr : Option Text) (policy : Option RoutePolicy)
    (target : PendingTarget)
    → session_target request addr policy ≡ ok (some target)
    → Permitted policy addr target.endpoint target.protocol
unfolding session_target
session_target-Permitted request addr none target h = fixed_target-Permitted request addr target h
session_target-Permitted request addr (some p) target h =
    let (t, e, h1) = >>=-eq-ok (policy_target p request) _ h in
    policy_target-Permitted p request addr target (e ∙ ap ok (cc))

-- A request that asks for no target finds none, if the session is bound to no address.
pub session_target-untargeted :
    (request : ClientSessionDataRequest) (policy : Option RoutePolicy) (target : PendingTarget)
    → has_session_target request ≡ false
    → session_target request none policy ≢ ok (some target)
unfolding session_target has_session_target fixed_target policy_target given_addr host_target
    trim_filter
session_target-untargeted request none target n h = ground arith
session_target-untargeted request (some p) target n h = ground arith

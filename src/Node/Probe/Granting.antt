-- ===== src/Node/Probe/Granting.antt =====
-- Where the grants of the sessions come from, for `build_probe_response` of node-core/src/session.rs.
use cll.Base.{ℕ, ◌≡◌, refl, sym, ap, subst, ◌∙◌, true, Option, none, some, arith}
use cll.Base.Outcome.{Result, ok, err}
use cll.Text.{Text}
use cll.Net.{SocketAddr}
use cll.Node.Auth.{AuthDecision, ClientTokenClaims, missing, valid, invalid, verify_probe_token}
use cll.Node.Code.{Code}
use cll.Node.Replies.{ErrorText, auth_refused}
use cll.Node.Stats.{
  RuntimeStats, record_probe_rejected, record_auth_missing, record_auth_ok, record_auth_failed,
}
use cll.Node.Messages.{TransportKind, ClientProbeRequest}
use cll.Node.Platform.{Platform, NodeState, hash_route_policy, count}
use cll.Node.Probe.{
  ProbeIdentity, from_request, identity_of, from_claims, grant_of, open_session,
  build_probe_error_with_code, build_probe_response, decided, claims_checked,
}
use cll.Node.Probe.Policy.{Brings, no_policy, signed_policy, from_claims-ok_iff}
use cll.Node.RoutePolicy.{RoutePolicy}
use cll.Node.SessionStore.{record_udp_session_io, Grant, new_session}
use cll.Node.SessionStore.Grants.{Grants, register-Grants, record_io-Grants}
use cll.Node.SessionStore.Invariant.{IsValid, register-IsValid, record_io-IsValid}

-- Where a grant comes from: a request without a token, or a token that the node checked at some time
-- together with the policy that the request brought.
pub data Granted (platform : Platform) (node_id : Option ℕ) (secret : Option Text)
    : Grant → Type 0 where
  by_request :
      (request : ClientProbeRequest)
      → Granted platform node_id secret (grant_of (from_request request))
  by_token :
      (now : ℕ) (request : ClientProbeRequest) (claims : ClientTokenClaims)
      → verify_probe_token platform.codec now request node_id secret ≡ valid claims
      → Brings platform claims request.route_policy
      → Granted platform node_id secret (grant_of (identity_of claims request.route_policy))

-- A session with a policy is authenticated, bound to no fixed target, and has the policy's hash.
pub Granted-policy :
    (platform : Platform) (node_id : Option ℕ) (secret : Option Text) (grant : Grant)
    (policy : RoutePolicy)
    → Granted platform node_id secret grant
    → grant.route_policy ≡ some policy
    → (grant.authenticated ≡ true)
      × (grant.route_target_addr ≡ none)
      × (grant.route_policy_hash ≡ hash_route_policy platform policy)
unfolding grant_of from_request identity_of
Granted-policy platform node_id secret grant policy (by_request request) h = cc
Granted-policy platform node_id secret grant policy (by_token now request claims v b) h = elim b [
  | no_policy n ↦ ground arith
  | signed_policy hash p n g s ↦ ground (arith, s.hashed)
]

-- The state of a node: one entry for an id, each session under its id, and every grant from a
-- request or from a token that this node checked.
pub record Serves (platform : Platform) (node_id : Option ℕ) (secret : Option Text)
    (state : NodeState) : Type 0 where
  pub same_node : state.node_id ≡ node_id
  pub same_secret : state.node_secret ≡ secret
  pub store_valid : IsValid state.sessions
  pub granted : Grants (Granted platform node_id secret) state.sessions

pub count-Serves :
    {platform : Platform} {node_id : Option ℕ} {secret : Option Text}
    (f : RuntimeStats → RuntimeStats) (state : NodeState)
    → Serves platform node_id secret state
    → Serves platform node_id secret (count f state)
count-Serves f state s = record {
  same_node = s.same_node;
  same_secret = s.same_secret;
  store_valid = s.store_valid;
  granted = s.granted;
}

pub io-Serves :
    {platform : Platform} {node_id : Option ℕ} {secret : Option Text} (now : ℕ) (id : Text)
    (peer : SocketAddr) (rx tx : ℕ) (state : NodeState)
    → Serves platform node_id secret state
    → Serves platform node_id secret
        (record state { sessions = (record_udp_session_io now id peer rx tx state.sessions).0 })
io-Serves now id peer rx tx state s = record {
  same_node = s.same_node;
  same_secret = s.same_secret;
  store_valid = record_io-IsValid now id peer rx tx state.sessions s.store_valid;
  granted = record_io-Grants _ now state.sessions id peer rx tx s.granted;
}

module _ (platform : Platform) (node_id : Option ℕ) (secret : Option Text) (now : ℕ)
    (transport : TransportKind) (peer : SocketAddr) (request : ClientProbeRequest) where
  open_session-Serves :
      (identity : ProbeIdentity) (state : NodeState)
      → Granted platform node_id secret (grant_of identity)
      → Serves platform node_id secret state
      → Serves platform node_id secret
          (open_session platform now transport peer request identity state).0
  unfolding open_session new_session
  open_session-Serves identity state g s = record {
    same_node = s.same_node;
    same_secret = s.same_secret;
    store_valid = register-IsValid now _ state.sessions s.store_valid;
    granted = register-Grants (Granted platform node_id secret) now state.sessions _ g s.granted;
  }

  error-Serves :
      (code : Code) (message : ErrorText) (state : NodeState)
      → Serves platform node_id secret state
      → Serves platform node_id secret
          (build_probe_error_with_code platform now transport code message state).0
  unfolding build_probe_error_with_code
  error-Serves code message state s = count-Serves record_probe_rejected state s

  decided-Serves :
      (state : NodeState) (decision : AuthDecision)
      → verify_probe_token platform.codec now request node_id secret ≡ decision
      → Serves platform node_id secret state
      → Serves platform node_id secret
          (decided platform now transport peer request decision state).0
  unfolding decided claims_checked
  decided-Serves state missing e s =
      open_session-Serves (from_request request) _ (by_request request)
        (count-Serves record_auth_missing state s)
  decided-Serves state (invalid code message) e s =
      error-Serves code (auth_refused message) _ (count-Serves record_auth_failed state s)
  decided-Serves state (valid claims) e s =
      go (from_claims platform claims request.route_policy) refl
    where
      go :
          (result : Result (Code × ErrorText) ProbeIdentity)
          → from_claims platform claims request.route_policy ≡ result
          → Serves platform node_id secret
              (claims_checked platform now transport peer request result state).0
      go (err (code, message)) f =
          error-Serves code message _
            (count-Serves record_auth_failed _ (count-Serves record_auth_ok state s))
      go (ok identity) f =
          let (i, b) = (from_claims-ok_iff platform claims request.route_policy identity).0 f in
          open_session-Serves identity _
            (subst (λ i. Granted platform node_id secret (grant_of i)) (sym i)
              (by_token now request claims e b))
            (count-Serves record_auth_ok state s)

  pub probe-Serves :
      (state : NodeState)
      → Serves platform node_id secret state
      → Serves platform node_id secret
          (build_probe_response platform now transport peer request state).0
  unfolding build_probe_response
  probe-Serves state s =
      decided-Serves state _
        (ap (λ n. verify_probe_token platform.codec now request n secret) (sym s.same_node)
          ∙ ap (λ k. verify_probe_token platform.codec now request state.node_id k)
              (sym s.same_secret))
        s

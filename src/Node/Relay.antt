-- ===== src/Node/Relay.antt =====
-- The relay of node-core/src/session.rs: one payload to an upstream, and at most one reply. What the
-- sockets answer is the argument of each function.
pub mod Bounds
use cll.Base.{
  ℕ, min, max, Bool, true, false, Option, none, some, List, [], if◌then◌else◌, take, length,
}
use cll.Base.Outcome.{Result, ok, err}
use cll.Text.{Text, bytes, text_eq, trim, to_ascii_lowercase}
use cll.Node.Code.{Code}
use cll.Node.Replies.{ErrorText, protocol_not_relayed}
use cll.Node.RoutePolicy.{unwrap_or}

pub data RelayProtocol : Type 0 where
  udp tcp : RelayProtocol

pub record TargetResolveError : Type 0 where
  pub code : Code
  pub message : ErrorText

-- `RelayProtocol::parse`.
unfoldable pub parse_protocol : Text → Result TargetResolveError RelayProtocol
parse_protocol value =
    let word = to_ascii_lowercase (trim value) in
    if text_eq word (bytes "udp")
    then ok RelayProtocol.udp
    else if text_eq word (bytes "tcp")
    then ok RelayProtocol.tcp
    else err (record { code = Code.target_protocol_unsupported; message = protocol_not_relayed })

-- `RelayProtocol::as_str`.
unfoldable pub protocol_text : RelayProtocol → Text
protocol_text RelayProtocol.udp = bytes "udp"
protocol_text RelayProtocol.tcp = bytes "tcp"

unfoldable pub relay_mode : RelayProtocol → Text
relay_mode RelayProtocol.udp = bytes "udp_target"
relay_mode RelayProtocol.tcp = bytes "tcp_target"

abbrev pub default_relay_timeout_ms : ℕ
default_relay_timeout_ms = 200

abbrev pub max_relay_timeout_ms : ℕ
max_relay_timeout_ms = 1000

abbrev pub max_relay_response_bytes : ℕ
max_relay_response_bytes = 4096

unfoldable pub clamp_relay_timeout : Option ℕ → ℕ
clamp_relay_timeout timeout_ms =
    min (max (unwrap_or timeout_ms default_relay_timeout_ms) 1) max_relay_timeout_ms

pub record RelayOutcome : Type 0 where
  pub payload : List ℕ
  pub upstream_tx_bytes : ℕ
  pub timed_out : Bool

-- How a read under a timeout ends.
pub data Reply : Type 0 where
  received : List ℕ → Reply
  read_failed elapsed : Reply

-- How an operation under a timeout ends.
pub data Attempt : Type 0 where
  finished failed late : Attempt

-- `bind`, `connect`, the number of bytes that `send` took, and `recv`.
pub record UdpUpstream : Type 0 where
  pub bound : Bool
  pub connected : Bool
  pub sent : Option ℕ
  pub reply : Reply

-- `connect`, `write_all` and `read`; how `shutdown` ends has no effect.
pub record TcpUpstream : Type 0 where
  pub connected : Attempt
  pub written : Attempt
  pub reply : Reply

-- A reply fills the buffer at most.
unfoldable pub relay_outcome : ℕ → Reply → Option RelayOutcome
relay_outcome sent (received bytes) = some (record {
  payload = take max_relay_response_bytes bytes;
  upstream_tx_bytes = sent;
  timed_out = false;
})
relay_outcome sent read_failed = none
relay_outcome sent elapsed =
    some (record { payload = []; upstream_tx_bytes = sent; timed_out = true })

unfoldable pub relay_udp_payload : UdpUpstream → Option RelayOutcome
unfolding relay_outcome
relay_udp_payload upstream =
    if upstream.bound
    then if upstream.connected
      then elim upstream.sent [ none ↦ none | some sent ↦ relay_outcome sent upstream.reply ]
      else none
    else none

abbrev is_finished : Attempt → Bool
is_finished finished = true
is_finished failed = false
is_finished late = false

unfoldable pub relay_tcp_payload : List ℕ → TcpUpstream → Option RelayOutcome
unfolding relay_outcome
relay_tcp_payload payload upstream =
    if is_finished upstream.connected
    then if is_finished upstream.written
      then relay_outcome (length payload) upstream.reply
      else none
    else none

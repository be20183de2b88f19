-- ===== src/Node/SessionStore.antt =====
-- node-core/src/session_store.rs: the UDP sessions by their ids, each with a fixed expiry.
-- The mutex is part of the state by its poison flag, which no operation sets: a panic under the lock
-- would. Each operation takes the time that it reads from the clock as an argument.
pub mod Refinement
pub mod Invariant
pub mod Grants
pub mod Expiry
use cll.Base.{
  ℕ, ◌+◌, ◌-◌, ◌%◌, ◌^◌, min, Bool, true, false, Option, none, some, List, [], ◌∷◌, ltb, leb,
  if◌then◌else◌, length,
}
use cll.Base.Outcome.{Result, ok, err}
use cll.Text.{Text}
use cll.Text.Map.{Map, lookup, insert, erase, retain}
use cll.Net.{SocketAddr}
use cll.Node.RoutePolicy.{RoutePolicy}

-- What a session was opened with.
pub record Grant : Type 0 where
  pub user_id : Option ℕ
  pub device_id : Option Text
  pub game_id : Option ℕ
  pub region_id : Option ℕ
  pub authenticated : Bool
  pub intent_id : Option Text
  pub route_target_addr : Option Text
  pub route_policy : Option RoutePolicy
  pub route_policy_id : Option Text
  pub route_policy_hash : Option Text

pub record UdpSession : Type 0 where
  pub session_id : Text
  pub grant : Grant
  pub open grant use *
  pub created_at : ℕ
  pub expires_at : ℕ
  pub last_seen_at : ℕ
  pub last_peer : SocketAddr
  pub rx_bytes : ℕ
  pub tx_bytes : ℕ

pub record UdpSessionSnapshot : Type 0 where
  pub session_id : Text
  pub grant : Grant
  pub open grant use *
  pub created_at : ℕ
  pub expires_at : ℕ

pub data UdpSessionError : Type 0 where
  missing expired lock_poisoned : UdpSessionError

pub record SessionStore : Type 0 where
  pub udp_sessions : Map UdpSession
  pub poisoned : Bool

abbrev pub empty_store : SessionStore
empty_store = record { udp_sessions = []; poisoned = false }

abbrev pub u64_max : ℕ
u64_max = 2 ^ 64 - 1

-- `u64::saturating_add`.
abbrev pub saturating_add : ℕ → ℕ → ℕ
saturating_add a b = min (a + b) u64_max

-- `UdpSession::new`, at time `now`. The sum of 64-bit numbers is written with its wrap-around.
unfoldable pub new_session : ℕ → Text → Grant → ℕ → SocketAddr → UdpSession
new_session now session_id grant ttl_sec peer = record {
  session_id = session_id;
  grant = grant;
  created_at = now;
  expires_at = (now + ttl_sec) % 2 ^ 64;
  last_seen_at = now;
  last_peer = peer;
  rx_bytes = 0;
  tx_bytes = 0;
}

unfoldable pub snapshot : UdpSession → UdpSessionSnapshot
snapshot s = record {
  session_id = s.session_id;
  grant = s.grant;
  created_at = s.created_at;
  expires_at = s.expires_at;
}

abbrev pub is_live : ℕ → UdpSession → Bool
is_live now session = ltb now session.expires_at

unfoldable pub remove_expired : ℕ → Map UdpSession → Map UdpSession
remove_expired now sessions = retain (is_live now) sessions

unfoldable pub register_udp_session : ℕ → UdpSession → SessionStore → SessionStore
register_udp_session now session store = if store.poisoned then store else record store {
  udp_sessions = insert session.session_id session (remove_expired now store.udp_sessions);
}

-- What a packet leaves in its session.
unfoldable pub touched : ℕ → SocketAddr → ℕ → ℕ → UdpSession → UdpSession
touched now peer rx_bytes tx_bytes session = record session {
  last_seen_at = now;
  last_peer = peer;
  rx_bytes = saturating_add session.rx_bytes rx_bytes;
  tx_bytes = saturating_add session.tx_bytes tx_bytes;
}

unfoldable pub record_udp_session_io :
    ℕ
    → Text
    → SocketAddr
    → ℕ
    → ℕ
    → SessionStore
    → SessionStore × Result UdpSessionError UdpSessionSnapshot
record_udp_session_io now session_id peer rx_bytes tx_bytes store =
    if store.poisoned
    then (store, err lock_poisoned)
    else elim (lookup session_id store.udp_sessions) [
      | none ↦ (store, err missing)
      | some session ↦
          if leb session.expires_at now
          then (record store { udp_sessions = erase session_id store.udp_sessions }, err expired)
          else let session' = touched now peer rx_bytes tx_bytes session in
            (
              record store { udp_sessions = insert session_id session' store.udp_sessions },
              ok (snapshot session'),
            )
    ]

unfoldable pub active_udp_session_count : ℕ → SessionStore → SessionStore × ℕ
active_udp_session_count now store =
    if store.poisoned
    then (store, 0)
    else let live = remove_expired now store.udp_sessions in
      (record store { udp_sessions = live }, length live % 2 ^ 64)

-- The operations, for histories of the store: each at the time that it reads.
pub data StoreCall : Type 0 where
  register : UdpSession → StoreCall
  record_io : Text → SocketAddr → ℕ → ℕ → StoreCall
  count : StoreCall

unfoldable pub step : SessionStore → ℕ × StoreCall → SessionStore
step store (now, register session) = register_udp_session now session store
step store (now, record_io id peer rx tx) = (record_udp_session_io now id peer rx tx store).0
step store (now, count) = (active_udp_session_count now store).0

unfoldable pub run : SessionStore → List (ℕ × StoreCall) → SessionStore
run store [] = store
run store (call ∷ calls) = run (step store call) calls

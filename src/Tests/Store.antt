-- ===== src/Tests/Store.antt =====
-- A session that carries a packet and runs out.
use cll.Base.{
  ℕ, ◌≡◌, ◌%◌, ◌^◌, ◌⊎◌, ◌≢◌, refl, true, false, if◌then◌else◌, none, some, List, [], ◌∷◌, length,
  arith,
}
use cll.Base.Outcome.{ok, err}
use cll.Text.{bytes, text_eq}
use cll.Text.Map.{keep_if, lookup, Entries, insert, retain}
use cll.Node.SessionStore.{
  Grant, UdpSession, UdpSessionSnapshot, SessionStore, StoreCall, register, record_io, count,
  new_session, missing, expired, is_live, snapshot, touched, empty_store, register_udp_session,
  record_udp_session_io, active_udp_session_count, run, step, remove_expired,
}
use cll.Node.SessionStore.Expiry.{session_lifetime}
use cll.Node.SessionStore.Invariant.{IsValid, run-IsValid}
use cll.Node.SessionStore.Refinement.{
  view, register_view, record_io_live, record_io_dead, count_view,
}
use cll.Tests.Toy.{peer}

abbrev grant : Grant
grant = record {
  user_id = some 9;
  device_id = none;
  game_id = none;
  region_id = none;
  authenticated = true;
  intent_id = none;
  route_target_addr = none;
  route_policy = none;
  route_policy_id = none;
  route_policy_hash = none;
}

abbrev session : UdpSession
session = new_session 100 (bytes "s1") grant 30 peer

-- The session, and traffic of it and of others.
abbrev calls : List (ℕ × StoreCall)
calls =
    (110, record_io (bytes "s1") peer 5 0)
    ∷ ((115, record_io (bytes "s2") peer 5 0) ∷ ((120, count) ∷ []))

abbrev store : SessionStore
store = run empty_store ((100, register session) ∷ [])

store-IsValid : IsValid store
store-IsValid = run-IsValid ((100, register session) ∷ [])

store_unpoisoned : store.poisoned ≡ false
unfolding run step register_udp_session
store_unpoisoned = refl

abbrev answer : UdpSessionSnapshot
answer = record { session_id = bytes "s1"; grant = grant; created_at = 100; expires_at = 130 }

session_lifetime_example :
    (record_udp_session_io 129 (bytes "s1") peer 1 0 (
      run
        (register_udp_session 100 (new_session 100 (bytes "s1") grant 30 peer) empty_store)
        calls)).1
    ≡ ok answer
session_lifetime_example =
    (session_lifetime 100 129 30 (bytes "s1") grant peer peer 1 0 empty_store calls answer
        (record { distinct = tt; owned = tt }) refl (omega arith)
        (omega arith, (omega arith, (omega arith, omega arith))) (tt, (tt, (tt, tt)))).1
      (omega arith, refl)

register_view_example :
    view 120
      (register_udp_session 110 (new_session 110 (bytes "s2") grant 30 peer) store)
      (bytes "s2")
    ≡ (if text_eq (bytes "s2") (bytes "s2")
        then keep_if (is_live 120) (some (new_session 110 (bytes "s2") grant 30 peer))
        else view 120 store (bytes "s2"))
unfolding new_session
register_view_example =
    register_view 110 120 (new_session 110 (bytes "s2") grant 30 peer) store (bytes "s2")
      (omega arith) store-IsValid store_unpoisoned

count_view_example :
    (view 120 (active_udp_session_count 110 store).0 (bytes "s1") ≡ view 120 store (bytes "s1"))
    × ((active_udp_session_count 110 store).1
        ≡ length (active_udp_session_count 110 store).0.udp_sessions % 2 ^ 64)
    × Entries (λ k s. is_live 110 s ≡ true) (active_udp_session_count 110 store).0.udp_sessions
count_view_example =
    count_view 110 120 store (bytes "s1") (omega arith) store-IsValid store_unpoisoned

seen_at_120 : view 120 store (bytes "s1") ≡ some session
unfolding view run step register_udp_session new_session remove_expired insert lookup retain text_eq
seen_at_120 = refl

record_io_live_example :
    ((record_udp_session_io 120 (bytes "s1") peer 5 0 store).1 ≡ ok (snapshot session))
    × (view 125 (record_udp_session_io 120 (bytes "s1") peer 5 0 store).0 (bytes "s1") ≡ (
        if text_eq (bytes "s1") (bytes "s1")
        then keep_if (is_live 125) (some (touched 120 peer 5 0 session))
        else view 125 store (bytes "s1")))
record_io_live_example =
    record_io_live 120 125 (bytes "s1") (bytes "s1") peer 5 0 store session store_unpoisoned
      seen_at_120

unseen_at_130 : view 130 store (bytes "s1") ≡ none
unfolding view run step register_udp_session new_session remove_expired insert lookup retain text_eq
unseen_at_130 = refl

record_io_dead_example :
    let r = record_udp_session_io 130 (bytes "s1") peer 5 0 store in
    (((lookup (bytes "s1") store.udp_sessions ≡ none) × (r.1 ≡ err missing))
      ⊎ ((lookup (bytes "s1") store.udp_sessions ≢ none) × (r.1 ≡ err expired)))
    × (lookup (bytes "s1") r.0.udp_sessions ≡ none)
    × (view 131 r.0 (bytes "s1") ≡ view 131 store (bytes "s1"))
record_io_dead_example =
    record_io_dead 130 131 (bytes "s1") (bytes "s1") peer 5 0 store (omega arith) store-IsValid
      store_unpoisoned unseen_at_130

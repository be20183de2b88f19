-- ===== src/Node/SessionStore/Invariant.antt =====
-- The well-formedness of the table of node-core/src/session_store.rs.
use cll.Base.{ℕ, ◌≡◌, refl, List, [], ◌∷◌, Bool-cases, Option-cases, inl, inr, leb}
use cll.Text.{Text}
use cll.Text.Map.{
  Map, Distinct, Entries, lookup, insert-Distinct, erase-Distinct, retain-Distinct, insert-Entries,
  erase-Entries, retain-Entries, lookup-Entries,
}
use cll.Net.{SocketAddr}
use cll.Node.SessionStore.{
  UdpSession, SessionStore, StoreCall, register, record_io, count, empty_store, is_live,
  remove_expired, touched, register_udp_session, record_udp_session_io, active_udp_session_count,
  step, run,
}

abbrev pub Owned : Map UdpSession → Type 0
Owned = Entries (λ id session. session.session_id ≡ id)

pub record IsValid (store : SessionStore) : Type 0 where
  pub distinct : Distinct store.udp_sessions
  pub owned : Owned store.udp_sessions

pub register-IsValid :
    (now : ℕ) (session : UdpSession) (store : SessionStore)
    → IsValid store
    → IsValid (register_udp_session now session store)
unfolding register_udp_session remove_expired
register-IsValid now session store v = elim (Bool-cases store.poisoned) [
  | inl p ↦ rw p (record { distinct = v.distinct; owned = v.owned })
  | inr p ↦ rw p (record {
    distinct =
        insert-Distinct session.session_id session _
          (retain-Distinct (is_live now) store.udp_sessions v.distinct);
    owned =
        insert-Entries _ session.session_id session _ refl
          (retain-Entries _ (is_live now) store.udp_sessions v.owned);
  })
]

pub record_io-IsValid :
    (now : ℕ) (id : Text) (peer : SocketAddr) (rx tx : ℕ) (store : SessionStore)
    → IsValid store
    → IsValid (record_udp_session_io now id peer rx tx store).0
unfolding record_udp_session_io
record_io-IsValid now id peer rx tx store v = elim (Bool-cases store.poisoned) [
  | inl p ↦ rw p (record { distinct = v.distinct; owned = v.owned })
  | inr p ↦ elim (Option-cases (lookup id store.udp_sessions)) [
    | inl e ↦ rw (p, e, record_udp_session_io) (record { distinct = v.distinct; owned = v.owned })
    | inr (s, e) ↦ elim (Bool-cases (leb s.expires_at now)) [
      | inl x ↦
          rw (p, e, x, record_udp_session_io)
            (record {
              distinct = erase-Distinct id store.udp_sessions v.distinct;
              owned = erase-Entries _ id store.udp_sessions v.owned;
            })
      | inr x ↦
          rw (p, e, x, record_udp_session_io)
            (record {
              distinct = insert-Distinct id _ store.udp_sessions v.distinct;
              owned =
                  insert-Entries _ id _ store.udp_sessions
                    (unfold touched in lookup-Entries _ id store.udp_sessions v.owned e) v.owned;
            })
    ]
  ]
]

count-IsValid :
    (now : ℕ) (store : SessionStore)
    → IsValid store
    → IsValid (active_udp_session_count now store).0
unfolding active_udp_session_count remove_expired
count-IsValid now store v = elim (Bool-cases store.poisoned) [
  | inl p ↦ rw p (record { distinct = v.distinct; owned = v.owned })
  | inr p ↦ rw p (record {
    distinct = retain-Distinct (is_live now) store.udp_sessions v.distinct;
    owned = retain-Entries _ (is_live now) store.udp_sessions v.owned;
  })
]

pub step-IsValid :
    (store : SessionStore) (call : ℕ × StoreCall) → IsValid store → IsValid (step store call)
unfolding step
step-IsValid store (now, register session) v = register-IsValid now session store v
step-IsValid store (now, record_io id peer rx tx) v = record_io-IsValid now id peer rx tx store v
step-IsValid store (now, count) v = count-IsValid now store v

pub run-step-IsValid :
    (store : SessionStore) (calls : List (ℕ × StoreCall))
    → IsValid store
    → IsValid (run store calls)
unfolding run
run-step-IsValid store [] v = v
run-step-IsValid store (call ∷ calls) v =
    run-step-IsValid (step store call) calls (step-IsValid store call v)

pub run-IsValid : (calls : List (ℕ × StoreCall)) → IsValid (run empty_store calls)
run-IsValid calls = run-step-IsValid empty_store calls (record { distinct = tt; owned = tt })

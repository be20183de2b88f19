-- ===== src/Node/SessionStore/Grants.antt =====
-- A predicate on every grant of node-core/src/session_store.rs, through its operations.
use cll.Base.{ℕ, Bool-cases, Option-cases, inl, inr, leb}
use cll.Text.{Text}
use cll.Text.Map.{Entries, insert-Entries, erase-Entries, retain-Entries, lookup-Entries, lookup}
use cll.Net.{SocketAddr}
use cll.Node.SessionStore.{
  Grant, UdpSession, SessionStore, is_live, remove_expired, touched, register_udp_session,
  record_udp_session_io,
}

abbrev pub Grants : (Grant → Type 0) → SessionStore → Type 0
Grants P store = Entries (λ id session. P session.grant) store.udp_sessions

module _ (P : Grant → Type 0) (now : ℕ) (store : SessionStore) where
  pub register-Grants :
      (session : UdpSession)
      → P session.grant
      → Grants P store
      → Grants P (register_udp_session now session store)
  unfolding register_udp_session remove_expired
  register-Grants session g e = elim (Bool-cases store.poisoned) [
    | inl p ↦ rw p e
    | inr p ↦ rw p (
        insert-Entries _ session.session_id session _ g
          (retain-Entries _ (is_live now) store.udp_sessions e))
  ]

  pub record_io-Grants :
      (id : Text) (peer : SocketAddr) (rx tx : ℕ)
      → Grants P store
      → Grants P (record_udp_session_io now id peer rx tx store).0
  unfolding record_udp_session_io
  record_io-Grants id peer rx tx e = elim (Bool-cases store.poisoned) [
    | inl p ↦ rw p e
    | inr p ↦ elim (Option-cases (lookup id store.udp_sessions)) [
      | inl n ↦ rw (p, n, record_udp_session_io) e
      | inr (s, f) ↦ elim (Bool-cases (leb s.expires_at now)) [
        | inl x ↦ rw (p, f, x, record_udp_session_io) (erase-Entries _ id store.udp_sessions e)
        | inr x ↦
            rw (p, f, x, record_udp_session_io)
              (insert-Entries _ id _ store.udp_sessions
                (unfold touched in lookup-Entries _ id store.udp_sessions e f) e)
      ]
    ]
  ]

-- ===== src/Node/SessionStore/Refinement.antt =====
-- The store of node-core/src/session_store.rs against its abstract view: a partial map from ids to
-- the sessions that are live.
use cll.Base.{
  ℕ, ◌≡◌, ◌≢◌, ◌%◌, ◌^◌, length, ◌≤◌, refl, true, false, Option, some, none, arith, Bool-cases,
  Option-cases, inl, inr, leb, ◌⊎◌, if◌then◌else◌,
}
use cll.Base.Outcome.{ok, err}
use cll.Text.{Text, text_eq}
use cll.Text.Equality.{text_eq_iff, text_eq_refl}
use cll.Text.Map.{
  lookup, retain, keep_if, lookup-insert, lookup-erase, lookup-retain, Entries, retain-kept,
}
use cll.Net.{SocketAddr}
use cll.Node.SessionStore.{
  UdpSession, SessionStore, UdpSessionSnapshot, missing, expired, is_live, remove_expired, touched,
  snapshot, register_udp_session, record_udp_session_io, active_udp_session_count,
}
use cll.Node.SessionStore.Invariant.{IsValid}

-- What a client can see of the store at time `now`.
unfoldable pub view : ℕ → SessionStore → Text → Option UdpSession
view now store id = keep_if (is_live now) (lookup id store.udp_sessions)

-- What is not live now is not live later.
live_later :
    (now later : ℕ) (o : Option UdpSession)
    → now ≤ later
    → keep_if (is_live later) (keep_if (is_live now) o) ≡ keep_if (is_live later) o
live_later now later none h = refl
live_later now later (some s) h = ground arith

-- In an unpoisoned store a registration binds its id, to a session that is seen for as long as it is
-- live; no other id changes, though what has run out is dropped from the table.
pub register_view :
    (now later : ℕ) (session : UdpSession) (store : SessionStore) (id : Text)
    → now ≤ later
    → IsValid store
    → store.poisoned ≡ false
    → view later (register_udp_session now session store) id ≡ (
        if text_eq session.session_id id
        then keep_if (is_live later) (some session)
        else view later store id)
unfolding view register_udp_session remove_expired
register_view now later session store id h v p = elim (Bool-cases (text_eq session.session_id id)) [
  | inl same ↦ rw (
    p,
    lookup-insert session.session_id id session (retain (is_live now) store.udp_sessions),
    same,
  )
  | inr other ↦
      rw
        (
          p,
          lookup-insert session.session_id id session (retain (is_live now) store.udp_sessions),
          other,
          lookup-retain (is_live now) id store.udp_sessions v.distinct,
        )
        (live_later now later (lookup id store.udp_sessions) h)
]

-- A count answers the number of sessions that it leaves in the table, all of them live, and changes
-- nothing that can be seen from then on.
pub count_view :
    (now later : ℕ) (store : SessionStore) (id : Text)
    → now ≤ later
    → IsValid store
    → store.poisoned ≡ false
    → (view later (active_udp_session_count now store).0 id ≡ view later store id)
      × ((active_udp_session_count now store).1
          ≡ length (active_udp_session_count now store).0.udp_sessions % 2 ^ 64)
      × Entries (λ k s. is_live now s ≡ true) (active_udp_session_count now store).0.udp_sessions
unfolding view active_udp_session_count remove_expired
count_view now later store id h v p = rw p (
  rw (lookup-retain (is_live now) id store.udp_sessions v.distinct)
      (live_later now later (lookup id store.udp_sessions) h),
  refl,
  retain-kept (is_live now) store.udp_sessions,
)

-- A packet for a session that is seen is answered with the session's snapshot; the session keeps its
-- grant and both its times, counts the bytes, and no other id changes, now or later.
pub record_io_live :
    (now later : ℕ) (id other : Text) (peer : SocketAddr) (rx tx : ℕ) (store : SessionStore)
    (s : UdpSession)
    → store.poisoned ≡ false
    → view now store id ≡ some s
    → ((record_udp_session_io now id peer rx tx store).1 ≡ ok (snapshot s))
      × (view later (record_udp_session_io now id peer rx tx store).0 other ≡ (
          if text_eq id other
          then keep_if (is_live later) (some (touched now peer rx tx s))
          else view later store other))
unfolding view record_udp_session_io snapshot touched
record_io_live now later id other peer rx tx store s p e =
    let found : (lookup id store.udp_sessions ≡ some s) × (leb s.expires_at now ≡ false) =
      (ground arith, ground arith) in
    rw (p, found.0, found.1, record_udp_session_io)
      (
        refl,
        rw (lookup-insert id other (touched now peer rx tx s) store.udp_sessions) (ground arith),
      )

-- An entry that is not seen has run out.
ran_out :
    (now : ℕ) (o : Option UdpSession) (s : UdpSession)
    → o ≡ some s
    → keep_if (is_live now) o ≡ none
    → leb s.expires_at now ≡ true
ran_out now o s e h = ground arith

-- What has run out stays unseen.
unseen_later :
    (now later : ℕ) (o : Option UdpSession)
    → now ≤ later
    → keep_if (is_live now) o ≡ none
    → keep_if (is_live later) o ≡ none
unseen_later now later none h e = refl
unseen_later now later (some s) h e = ground arith

-- A packet for an id that is not seen is answered `missing` when the table has no entry for it and
-- `expired` otherwise; then the id has no entry, and nothing that can be seen from then on changes.
pub record_io_dead :
    (now later : ℕ) (id other : Text) (peer : SocketAddr) (rx tx : ℕ) (store : SessionStore)
    → now ≤ later
    → IsValid store
    → store.poisoned ≡ false
    → view now store id ≡ none
    → let r = record_udp_session_io now id peer rx tx store in
      (((lookup id store.udp_sessions ≡ none) × (r.1 ≡ err missing))
        ⊎ ((lookup id store.udp_sessions ≢ none) × (r.1 ≡ err expired)))
      × (lookup id r.0.udp_sessions ≡ none)
      × (view later r.0 other ≡ view later store other)
unfolding view record_udp_session_io
record_io_dead now later id other peer rx tx store h v p e =
    elim (Option-cases (lookup id store.udp_sessions)) [
      | inl n ↦ rw (p, n, record_udp_session_io) (inl (refl, refl), n, refl)
      | inr (s, f) ↦
          rw (p, f, ran_out now (lookup id store.udp_sessions) s f e, record_udp_session_io)
            (
              inr ((λ q. cc), refl),
              rw (lookup-erase id id store.udp_sessions v.distinct, text_eq_refl id),
              rw (lookup-erase id other store.udp_sessions v.distinct) (
                  ground (
                    arith,
                    text_eq_iff id other,
                    unseen_later now later (lookup id store.udp_sessions) h e,
                  )),
            )
    ]

-- A packet that is answered with a snapshot is for a session that is seen, and the snapshot is that
-- session's.
pub answered_live :
    (now : ℕ) (id : Text) (peer : SocketAddr) (rx tx : ℕ) (store : SessionStore)
    (found : UdpSessionSnapshot)
    → (record_udp_session_io now id peer rx tx store).1 ≡ ok found
    → (s : UdpSession) × (view now store id ≡ some s) × (found ≡ snapshot s)
unfolding view record_udp_session_io snapshot touched
answered_live now id peer rx tx store found h = elim (Bool-cases store.poisoned) [
  | inl p ↦ absurd (ground arith)
  | inr p ↦ elim (Option-cases (lookup id store.udp_sessions)) [
    | inl n ↦ absurd (ground arith)
    | inr (s, f) ↦ elim (Bool-cases (leb s.expires_at now)) [
      | inl x ↦ absurd (ground arith)
      | inr x ↦ (s, ground arith, ground arith)
    ]
  ]
]

-- ===== src/Node/SessionStore/Expiry.antt =====
-- The lifetime of a session in node-core/src/session_store.rs.
use cll.Base.{
  ℕ, ◌+◌, ◌≡◌, ◌≤◌, ◌<◌, ◌%◌, ◌^◌, refl, sym, ap, ◌∙◌, true, false, Option, some, none, List, [],
  ◌∷◌, arith, Bool-cases, Option-cases, inl, inr, ◌↔◌, All,
}
use cll.Base.Outcome.{ok}
use cll.Text.{Text, text_eq}
use cll.Text.Equality.{text_eq_iff, text_eq_refl}
use cll.Text.Map.{lookup, keep_if}
use cll.Net.{SocketAddr}
use cll.Node.SessionStore.{
  Grant, UdpSession, SessionStore, StoreCall, UdpSessionSnapshot, register, record_io, count,
  is_live, snapshot, touched, new_session, register_udp_session, record_udp_session_io,
  active_udp_session_count, step, run,
}
use cll.Node.SessionStore.Invariant.{IsValid, step-IsValid, run-step-IsValid}
use cll.Node.SessionStore.Refinement.{
  view, register_view, count_view, record_io_live, record_io_dead,
}

-- The snapshot that a client would get for an id.
abbrev pub map_snapshot : Option UdpSession → Option UdpSessionSnapshot
map_snapshot none = none
map_snapshot (some s) = some (snapshot s)

abbrev pub seen : ℕ → SessionStore → Text → Option UdpSessionSnapshot
seen now store id = map_snapshot (view now store id)

-- The times of a history never fall, from `start` up to `stop`.
abbrev pub Ordered : ℕ → List (ℕ × StoreCall) → ℕ → Type 0
Ordered start [] stop = start ≤ stop
Ordered start ((now, call) ∷ calls) stop = (start ≤ now) × Ordered now calls stop

-- A call that does not register the id.
abbrev pub Spares : Text → ℕ × StoreCall → Type 0
Spares id (now, register session) = text_eq session.session_id id ≡ false
Spares id (now, record_io other peer rx tx) = Unit
Spares id (now, count) = Unit

step_poisoned :
    (store : SessionStore) (call : ℕ × StoreCall) → (step store call).poisoned ≡ store.poisoned
unfolding step register_udp_session active_udp_session_count record_udp_session_io
step_poisoned store (now, register session) = ground arith
step_poisoned store (now, record_io id peer rx tx) = ground arith
step_poisoned store (now, count) = ground arith

view_at :
    (now later : ℕ) (store : SessionStore) (id : Text) (s : UdpSession)
    → view now store id ≡ some s
    → view later store id ≡ keep_if (is_live later) (some s)
unfolding view
view_at now later store id s e =
    let found : lookup id store.udp_sessions ≡ some s = ground arith in rw found

touched_seen :
    (now later : ℕ) (peer : SocketAddr) (rx tx : ℕ) (s : UdpSession)
    → map_snapshot (keep_if (is_live later) (some (touched now peer rx tx s)))
      ≡ map_snapshot (keep_if (is_live later) (some s))
unfolding touched snapshot
touched_seen now later peer rx tx s = ground arith

module _ (now later : ℕ) (store : SessionStore) (id : Text) (h : now ≤ later) (v : IsValid store)
    (p : store.poisoned ≡ false) where
  io_seen_live :
      (other : Text) (peer : SocketAddr) (rx tx : ℕ) (s : UdpSession)
      → view now store other ≡ some s
      → seen later (record_udp_session_io now other peer rx tx store).0 id ≡ seen later store id
  io_seen_live other peer rx tx s e =
      ap map_snapshot (record_io_live now later other id peer rx tx store s p e).1
      ∙ elim (Bool-cases (text_eq other id)) [
        | inl same ↦ rw same (
            touched_seen now later peer rx tx s
            ∙ ap map_snapshot (
                sym (view_at now later store other s e)
                ∙ ap (view later store) ((text_eq_iff other id).0 same)))
        | inr differ ↦ rw differ
      ]

  io_seen :
      (other : Text) (peer : SocketAddr) (rx tx : ℕ)
      → seen later (record_udp_session_io now other peer rx tx store).0 id ≡ seen later store id
  io_seen other peer rx tx = elim (Option-cases (view now store other)) [
    | inl e ↦ ap map_snapshot (record_io_dead now later other id peer rx tx store h v p e).2
    | inr (s, e) ↦ io_seen_live other peer rx tx s e
  ]

  seen-step :
      (call : StoreCall)
      → Spares id (now, call)
      → seen later (step store (now, call)) id ≡ seen later store id
  unfolding step
  seen-step (register session) sp =
      ap map_snapshot (register_view now later session store id h v p) ∙ rw sp
  seen-step (record_io other peer rx tx) sp = io_seen other peer rx tx
  seen-step count sp = ap map_snapshot (count_view now later store id h v p).0

Ordered-le :
    (start stop : ℕ) (calls : List (ℕ × StoreCall)) → Ordered start calls stop → start ≤ stop
Ordered-le start stop [] o = o
Ordered-le start stop ((now, call) ∷ calls) o = omega (arith, Ordered-le now stop calls o.1)

seen-run :
    (start later : ℕ) (store : SessionStore) (id : Text) (calls : List (ℕ × StoreCall))
    → IsValid store
    → store.poisoned ≡ false
    → Ordered start calls later
    → All (Spares id) calls
    → seen later (run store calls) id ≡ seen later store id
unfolding run
seen-run start later store id [] v p o sp = refl
seen-run start later store id ((now, call) ∷ calls) v p o sp =
    seen-run now later (step store (now, call)) id calls (step-IsValid store (now, call) v)
      (step_poisoned store (now, call) ∙ p) o.1 sp.1
    ∙ seen-step now later store id (Ordered-le now later calls o.1) v p call sp.0

run_poisoned :
    (store : SessionStore) (calls : List (ℕ × StoreCall))
    → (run store calls).poisoned ≡ store.poisoned
unfolding run
run_poisoned store [] = refl
run_poisoned store (call ∷ calls) = run_poisoned (step store call) calls ∙ step_poisoned store call

-- A packet is answered with what its id shows.
answer_iff :
    (now : ℕ) (id : Text) (peer : SocketAddr) (rx tx : ℕ) (store : SessionStore)
    (r : UdpSessionSnapshot)
    → IsValid store
    → store.poisoned ≡ false
    → ((record_udp_session_io now id peer rx tx store).1 ≡ ok r) ↔ (seen now store id ≡ some r)
answer_iff now id peer rx tx store r v p = elim (Option-cases (view now store id)) [
  | inr (s, e) ↦
      rw (e, (record_io_live now now id id peer rx tx store s p e).0) ((λ h. cc), (λ h. cc))
  | inl e ↦
      let refused = (record_io_dead now now id id peer rx tx store (omega arith) v p e).0 in
      elim refused [
        | inl (_, q) ↦ rw (e, q) ((λ h. absurd (cc)), (λ h. absurd (cc)))
        | inr (_, q) ↦ rw (e, q) ((λ h. absurd (cc)), (λ h. absurd (cc)))
      ]
]

register_poisoned :
    (now : ℕ) (session : UdpSession) (store : SessionStore)
    → (register_udp_session now session store).poisoned ≡ store.poisoned
register_poisoned now session store = unfold step in step_poisoned store (now, register session)

own_id :
    (start ttl : ℕ) (id : Text) (grant : Grant) (peer : SocketAddr)
    → text_eq (new_session start id grant ttl peer).session_id id ≡ true
unfolding new_session
own_id start ttl id grant peer = text_eq_refl id

new_session_shown :
    (start later ttl : ℕ) (id : Text) (grant : Grant) (peer : SocketAddr) (r : UdpSessionSnapshot)
    → start + ttl < 2 ^ 64
    → (map_snapshot (keep_if (is_live later) (some (new_session start id grant ttl peer))) ≡ some r)
      ↔ ((later < start + ttl)
          × (r ≡ record {
            session_id = id;
            grant = grant;
            created_at = start;
            expires_at = start + ttl;
          }))
unfolding new_session snapshot
new_session_shown start later ttl id grant peer r fits =
    let e : (start + ttl) % 2 ^ 64 ≡ start + ttl = omega arith in
    rw e ((λ h. (ground arith, ground arith)), (λ h. ground arith))

-- Register a session at `start` for `ttl` seconds, in an unpoisoned store and with no overflow of the
-- clock; let any calls follow, at times that do not fall, that do not register its id again. Then a
-- packet for it at time `later` is accepted exactly while `later` is before `start + ttl`, however
-- much traffic there was, and is answered with the grant that it was registered with.
pub session_lifetime :
    (start later ttl : ℕ) (id : Text) (grant : Grant) (peer sender : SocketAddr) (rx tx : ℕ)
    (store : SessionStore) (calls : List (ℕ × StoreCall)) (r : UdpSessionSnapshot)
    → IsValid store
    → store.poisoned ≡ false
    → start + ttl < 2 ^ 64
    → Ordered start calls later
    → All (Spares id) calls
    → ((record_udp_session_io later id sender rx tx
          (run (register_udp_session start (new_session start id grant ttl peer) store) calls)).1
        ≡ ok r)
      ↔ ((later < start + ttl)
          × (r ≡ record {
            session_id = id;
            grant = grant;
            created_at = start;
            expires_at = start + ttl;
          }))
session_lifetime start later ttl id grant peer sender rx tx store calls r v p fits o sp =
    let session = new_session start id grant ttl peer in
    let opened = register_udp_session start session store in
    let v' : IsValid opened = unfold step in step-IsValid store (start, register session) v in
    let p' : opened.poisoned ≡ false = register_poisoned start session store ∙ p in
    let shown : seen later (run opened calls) id
        ≡ map_snapshot (keep_if (is_live later) (some session)) =
      seen-run start later opened id calls v' p' o sp
      ∙ ap map_snapshot
          (register_view start later session store id (Ordered-le start later calls o) v p)
      ∙ rw (own_id start ttl id grant peer) in
    let answer =
      answer_iff later id sender rx tx (run opened calls) r (run-step-IsValid opened calls v')
        (run_poisoned opened calls ∙ p') in
    let fresh = new_session_shown start later ttl id grant peer r fits in
    ((λ h. fresh.0 (sym shown ∙ answer.0 h)), (λ h. answer.1 (shown ∙ fresh.1 h)))

-- ===== src/Control/NodeApi/Handshake.antt =====
-- The handshake of node-core/src/control_plane.rs with control-api/src/main.rs.
use cll.Node.ControlPlane.{
  handshake_path, post, node_request, handshake_of, next_nonce, NodeRequest, Credentials, Machine,
  NodeHandshake,
}
use cll.Control.NodeApi.{
  authenticated, checked_handshake, node_handshake, Headers, Sender,
  validate_node_handshake_request,
}
use cll.Node.Platform.{Platform}
use cll.Base.{
  refl, inr, inl, Bool-cases, ◌⊎◌, is_empty, ◌^◌, ◌<◌, some, List, arith, ltb, ℕ, Option, true,
  false, ◌≡◌, ◌≤◌,
}
use cll.Text.{Text, bytes, text_eq, is_blank}
use cll.Base.Outcome.{ok}
use cll.Node.Runtime.{config_revision, Runtime}
use cll.Node.RoutePolicy.{is_some_and}
use cll.Text.Equality.{text_eq_iff}
use cll.Text.Chars.{count_chars}
use cll.Control.Nodes.{
  has_secret, select_node_secret, is_held, online, has_id, persist_node_handshake, handshake_update,
  NodeRow,
}
use cll.Control.NodeApi.Signing.{nonce_present, request-authenticated, Carries, IsSigner}
use cll.Control.NodeApi.Authentic.{IsTimely}
use cll.Control.Table.{select_first-and, select_first-update_where, update_where, select_first}

-- What the control plane asks of a handshake besides the signature.
pub record IsPresentable (handshake : NodeHandshake) : Type 0 where
  pub positive : 1 ≤ handshake.node_id
  pub version : is_blank handshake.node_version ≡ false
  pub linux : handshake.os ≡ bytes "linux"
  pub arch : is_blank handshake.arch ≡ false
  pub boot_id : is_blank handshake.boot_id ≡ false
  pub short : is_some_and handshake.listen_addr (λ addr. ltb 128 (count_chars addr)) ≡ false

presentable_valid :
    (sender : Sender) (handshake : NodeHandshake)
    → IsPresentable handshake
    → handshake.node_id ≡ sender.node_id
    → handshake.timestamp ≡ sender.timestamp
    → handshake.nonce ≡ sender.nonce
    → validate_node_handshake_request sender handshake ≡ ok tt
unfolding validate_node_handshake_request
presentable_valid sender handshake h id time nonce =
    let known : text_eq handshake.os (bytes "linux") ≡ true = (text_eq_iff _ _).1 h.linux in
    let same : text_eq handshake.nonce sender.nonce ≡ true = (text_eq_iff _ _).1 nonce in
    ground arith

module _ (platform : Platform) (machine : Machine) (credentials : Credentials) (runtime : Runtime)
    (read_handshake : Text → Option NodeHandshake) (now timestamp counter : ℕ)
    (nodes : List NodeRow) (row : NodeRow) (headers : Headers) (body : Text)
    (request : NodeRequest) where
  abbrev pub sent_nonce : Text
  sent_nonce = (next_nonce machine.process_id timestamp counter).0

  abbrev pub sent_handshake : NodeHandshake
  sent_handshake = handshake_of machine credentials runtime timestamp sent_nonce

  -- The row of the node after its handshake.
  abbrev pub welcomed : NodeRow
  welcomed = handshake_update machine.node_version (config_revision runtime) timestamp row

  welcomed_status : (welcomed.status ≡ online) ⊎ (is_held row.status ≡ true)
  unfolding handshake_update
  welcomed_status = elim (Bool-cases (is_held row.status)) [
    | inl held ↦ inr held
    | inr free ↦ inl (rw free refl)
  ]

  welcomed_revision : config_revision runtime ≤ welcomed.config_revision
  unfolding handshake_update
  welcomed_revision = ground arith

  -- The table after the handshake.
  abbrev updated : List NodeRow
  updated =
      update_where (has_id credentials.node_id)
        (handshake_update machine.node_version (config_revision runtime) timestamp) nodes

  updated-row :
      select_first (has_id credentials.node_id) nodes ≡ some row
      → select_first (has_id credentials.node_id) updated ≡ some welcomed
  unfolding handshake_update
  updated-row kept =
      select_first-update_where (has_id credentials.node_id)
        (handshake_update machine.node_version (config_revision runtime) timestamp) nodes
        (λ r. refl) kept

  persisted :
      select_first (has_id credentials.node_id) nodes ≡ some row
      → persist_node_handshake credentials.node_id machine.node_version
          (config_revision runtime)
          timestamp
          nodes
        ≡ (updated, ok welcomed.config_revision)
  unfolding persist_node_handshake
  persisted kept = rw (updated-row kept) refl

  secret_kept :
      select_first (has_id credentials.node_id) nodes ≡ some row
      → row.node_secret ≡ some credentials.node_secret
      → is_empty credentials.node_secret ≡ false
      → select_node_secret credentials.node_id nodes ≡ some credentials.node_secret
  unfolding select_node_secret
  secret_kept kept secret given =
      let usable : has_secret row ≡ true = ground arith in
      rw
        (
          select_first-and (has_id credentials.node_id) has_secret nodes kept usable,
          select_node_secret,
        )
        secret

  checked :
      authenticated platform now nodes headers post handshake_path body
        ≡ ok (record { node_id = credentials.node_id; timestamp = timestamp; nonce = sent_nonce })
      → read_handshake body ≡ some sent_handshake
      → IsPresentable sent_handshake
      → checked_handshake platform read_handshake now nodes headers body ≡ ok sent_handshake
  unfolding checked_handshake handshake_of
  checked a reads presentable =
      let valid =
        presentable_valid
          (record { node_id = credentials.node_id; timestamp = timestamp; nonce = sent_nonce })
          sent_handshake presentable refl refl refl in
      rw (a, reads, valid) refl

  -- A handshake that a node signs and sends in time, with a presentable body that the control plane
  -- reads back, an id and a timestamp of 64 bits and headers that arrive, is accepted by a control
  -- plane that keeps the node's row with the same secret, which is not empty. The row
  -- is then online unless an operator holds it, with the version of the node and a revision that is
  -- no less than the one of the node, which is the revision of the answer.
  pub handshake_accepted :
      IsSigner platform credentials.node_secret
      → node_request platform credentials timestamp sent_nonce post handshake_path body
        ≡ some request
      → Carries headers request
      → read_handshake body ≡ some sent_handshake
      → IsPresentable sent_handshake
      → credentials.node_id < 2 ^ 64
      → timestamp < 2 ^ 64
      → IsTimely now timestamp
      → select_first (has_id credentials.node_id) nodes ≡ some row
      → row.node_secret ≡ some credentials.node_secret
      → is_empty credentials.node_secret ≡ false
      → let (nodes', answer) = node_handshake platform read_handshake now nodes headers body in
        (answer
          ≡ ok (record {
            node_id = credentials.node_id;
            config_revision = welcomed.config_revision;
          }))
        × (select_first (has_id credentials.node_id) nodes' ≡ some welcomed)
        × (config_revision runtime ≤ welcomed.config_revision)
        × ((welcomed.status ≡ online) ⊎ (is_held row.status ≡ true))
  unfolding node_handshake handshake_of
  handshake_accepted signer signed carries reads presentable small_id small_time timely kept secret
        given =
      let a =
        request-authenticated platform credentials now timestamp nodes headers sent_nonce post
          handshake_path body request signer signed carries small_id small_time timely
          (nonce_present machine.process_id timestamp counter) (secret_kept kept secret given) in
      rw (checked a reads presentable, persisted kept)
        (refl, updated-row kept, welcomed_revision, welcomed_status)

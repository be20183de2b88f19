-- ===== src/Control/NodeApi/Settings.antt =====
-- From the settings of an operator at control-api/src/main.rs to the network that a node of
-- node-core/src runs with.
use cll.Base.{
  if◌then◌else◌, Bool, sym, ap, ◌∙◌, ltb, true, none, Option, subst, any, not, [], ◌||◌, false,
  some, ◌<◌, ◌≡◌, List, ◌≤◌, ℕ, refl, arith,
}
use cll.Control.Nodes.{
  endpoint_taken, has_id, NodeRow, config_response, select_node_config, NodeSettings,
  settings_update, update_admin_node_config,
}
use cll.Control.NodeApi.{authenticated, Sender, Headers, node_config}
use cll.Node.Runtime.{
  config_revision, network_listener_changed, ConfigApplyResult, Runtime, NetworkConfig,
}
use cll.Node.ControlPlane.Answers.{
  config_written, config_decoded, RemoteConfig, config_answered, config_loop, config_received,
  Client, config_applied,
}
use cll.Node.Platform.{Platform}
use cll.Base.Outcome.{bail_if, >>=-eq-ok, ok}
use cll.Control.Table.{select_first-update_where, update_where, select_first}
use cll.Node.Runtime.Apply.{apply-Applied, fresh, stale, Applied, SameEndpoint, SameSettings}
use cll.Node.ControlPlane.{answered, is_success, config_path, get}
use cll.Node.Stats.{record_config_success}
use cll.Control.Error.{node_not_found, not_found, node_endpoint_exists, conflict}
use cll.Text.{Text}

updated-row :
    (node_id : ℕ) (settings : NodeSettings) (nodes nodes' : List NodeRow) (row : NodeRow)
    → update_admin_node_config node_id settings nodes ≡ ok nodes'
    → select_first (has_id node_id) nodes ≡ some row
    → select_first (has_id node_id) nodes' ≡ some (settings_update settings row)
unfolding update_admin_node_config settings_update
updated-row node_id settings nodes nodes' row h kept =
    let (_, t, h1) =
      >>=-eq-ok
        (bail_if (endpoint_taken settings.server_ip settings.server_port node_id nodes)
          (conflict node_endpoint_exists))
        _ h in
    let (_, e, h2) =
      >>=-eq-ok (bail_if (not (any (has_id node_id) nodes)) (not_found node_not_found)) _ h1 in
    let same : update_where (has_id node_id) (settings_update settings) nodes ≡ nodes' = cc in
    subst (λ rows. select_first (has_id node_id) rows ≡ some (settings_update settings row)) same
      (select_first-update_where (has_id node_id) (settings_update settings) nodes (λ r. refl) kept)

-- The configuration that an authenticated node is answered.
answered-config :
    (platform : Platform) (now : ℕ) (nodes : List NodeRow) (headers : Headers) (sender : Sender)
    (row : NodeRow)
    → authenticated platform now nodes headers get config_path [] ≡ ok sender
    → select_first (has_id sender.node_id) nodes ≡ some row
    → node_config platform now nodes headers ≡ ok (config_response row)
unfolding node_config select_node_config
answered-config platform now nodes headers sender row a kept = rw (a, kept) refl

-- What the node is told after an update.
abbrev pub told : NodeSettings → NodeRow → ℕ × NetworkConfig
told settings row = config_response (settings_update settings row)

newer :
    (settings : NodeSettings) (row : NodeRow) (n : ℕ)
    → n ≤ row.config_revision
    → n < (told settings row).0
unfolding settings_update config_response
newer settings row n h = omega (arith, h)

-- A node that runs with `bound` after it has taken over a newer configuration.
pub record TakenOver (bound : NetworkConfig) (remote : ℕ × NetworkConfig) (before after : Client)
    : Type 0 where
  pub network : NetworkConfig
  pub runs : after.runtime.network ≡ some network
  pub settings : SameSettings network remote.1
  pub endpoint : SameEndpoint network bound
  pub revision : after.runtime.config_revision ≡ remote.0
  pub restart :
      after.runtime.restart_required
      ≡ (before.runtime.restart_required || network_listener_changed bound remote.1)

applied-TakenOver :
    (now status : ℕ) (bound : NetworkConfig) (remote : ℕ × NetworkConfig) (client : Client)
    → client.runtime.poisoned ≡ false
    → client.runtime.network ≡ some bound
    → client.runtime.config_revision < remote.0
    → TakenOver bound remote client (config_applied now status remote client)
unfolding config_applied
applied-TakenOver now status bound remote client p n new =
    taken _ _ (apply-Applied client.runtime bound remote.0 remote.1 p n)
  where
    taken :
        (after : Runtime) (result : ConfigApplyResult)
        → Applied client.runtime bound remote.0 remote.1 after result
        → TakenOver bound remote client
            (record { runtime = after; stats = record_config_success now status client.stats })
    taken after result (stale old _ _ _) = absurd (omega (arith, old, new))
    taken after result (fresh network _ _ _ _ _ r e ep st re) = record {
      network = network;
      runs = e;
      settings = st;
      endpoint = ep;
      revision = r;
      restart = re;
    }

received-applied :
    (persist : RemoteConfig → Option Text) (now status : ℕ) (remote : RemoteConfig)
    (client : Client)
    → persist remote ≡ none
    → config_received persist now status remote client
      ≡ (config_applied now status remote client, none)
unfolding config_received config_written
received-applied persist now status remote client written =
    ap (config_written now status remote client)
      (unneeded (ltb (config_revision client.runtime) remote.0))
  where
    unneeded : (newer : Bool) → (if newer then persist remote else none) ≡ none
    unneeded true = written
    unneeded false = refl

loop-applied :
    (decode : Text → Option RemoteConfig) (persist : RemoteConfig → Option Text) (now status : ℕ)
    (body : Text) (remote : RemoteConfig) (client : Client)
    → is_success status ≡ true
    → decode body ≡ some remote
    → persist remote ≡ none
    → config_loop decode persist now (answered status (some body)) client
      ≡ config_applied now status remote client
unfolding config_loop config_answered config_decoded
loop-applied decode persist now status body remote client good reads written =
    rw (good, reads, received-applied persist now status remote client written) refl

-- The settings that an operator gives a node reach it. Once they are stored, the next answer to a
-- request for the configuration that is authenticated as the node's, read back and written to its
-- file, makes the node run with them, on the endpoint that it is bound to, with the revision that the
-- table has then; a restart is required if they ask for another endpoint or one was required before.
-- The node is not to be ahead of its row, and its lock is not to be poisoned.
pub settings_reach_node :
    (platform : Platform) (now node_now node_id : ℕ) (settings : NodeSettings)
    (nodes nodes' : List NodeRow) (row : NodeRow) (headers : Headers) (sender : Sender)
    (decode : Text → Option RemoteConfig) (persist : RemoteConfig → Option Text) (status : ℕ)
    (body : Text) (remote : RemoteConfig) (client : Client) (bound : NetworkConfig)
    → update_admin_node_config node_id settings nodes ≡ ok nodes'
    → select_first (has_id node_id) nodes ≡ some row
    → authenticated platform now nodes' headers get config_path [] ≡ ok sender
    → sender.node_id ≡ node_id
    → node_config platform now nodes' headers ≡ ok remote
    → is_success status ≡ true
    → decode body ≡ some remote
    → persist remote ≡ none
    → client.runtime.poisoned ≡ false
    → client.runtime.network ≡ some bound
    → client.runtime.config_revision ≤ row.config_revision
    → TakenOver bound
        (told settings row)
        client
        (config_loop decode persist node_now (answered status (some body)) client)
settings_reach_node platform now node_now node_id settings nodes nodes' row headers sender decode
      persist status body remote client bound stored kept known same_node answer good reads written
      unpoisoned running behind =
    let kept' : select_first (has_id sender.node_id) nodes' ≡ some (settings_update settings row) =
      rw same_node (updated-row node_id settings nodes nodes' row stored kept) in
    let told_is : remote ≡ told settings row = cc (
      answered-config platform now nodes' headers sender (settings_update settings row) known
        kept') in
    let done =
      loop-applied decode persist node_now status body (told settings row) client good
        (reads ∙ ap some told_is) (ap persist (sym told_is) ∙ written) in
    subst (TakenOver bound (told settings row) client) (sym done) (
      applied-TakenOver node_now status bound (told settings row) client unpoisoned running
        (newer settings row client.runtime.config_revision behind))

-- ===== src/Node/Identity.antt =====
-- node-core/src/identity.rs: who the node is, from its configuration and its identity file.
pub mod Credentials
use cll.Base.{ℕ, Bool, false, ◌||◌, Option, none, some, not}
use cll.Text.{Text}
use cll.Node.Auth.{usable_secret}
use cll.Node.RoutePolicy.{is_none, unwrap_or}

-- `IdentityConfig`, with the response file of the bootstrap section.
pub record IdentityConfig : Type 0 where
  pub node_id : Option ℕ
  pub panel_url : Option Text
  pub response_file : Option Text

pub record IdentityFile : Type 0 where
  pub node_id : Option ℕ
  pub panel_url : Option Text
  pub node_secret : Option Text
  pub bootstrap_response_file : Option Text
  pub created_by_installer : Option Bool

pub record IdentityState : Type 0 where
  pub node_id : Option ℕ
  pub panel_url : Option Text
  pub node_secret_present : Bool
  pub bootstrap_response_file : Option Text
  pub created_by_installer : Bool
  pub node_secret : Option Text

-- What stands at the path of the identity file.
pub data FileContent : Type 0 where
  absent unreadable not_parsed : FileContent
  parsed : IdentityFile → FileContent

abbrev or : {A : Type 0} → Option A → Option A → Option A
or none b = b
or (some a) b = some a

-- `IdentityState::from_config`; an error is none.
unfoldable pub from_config : IdentityConfig → FileContent → Option IdentityState
from_config config absent = some (record {
  node_id = config.node_id;
  panel_url = config.panel_url;
  node_secret_present = false;
  bootstrap_response_file = config.response_file;
  created_by_installer = false;
  node_secret = none;
})
from_config config unreadable = none
from_config config not_parsed = none
from_config config (parsed file) = some (record {
  node_id = or file.node_id config.node_id;
  panel_url = or file.panel_url config.panel_url;
  node_secret_present = not (is_none (usable_secret file.node_secret));
  bootstrap_response_file = file.bootstrap_response_file;
  created_by_installer = unwrap_or file.created_by_installer false;
  node_secret = usable_secret file.node_secret;
})

unfoldable pub is_bootstrap_placeholder : IdentityState → Bool
is_bootstrap_placeholder identity = is_none identity.node_id || not identity.node_secret_present

unfoldable pub control_plane_credentials : IdentityState → Option (ℕ × Text × Text)
control_plane_credentials identity = elim identity.node_id [
  | none ↦ none
  | some node_id ↦ elim identity.panel_url [
    | none ↦ none
    | some panel_url ↦ elim identity.node_secret [
      | none ↦ none
      | some node_secret ↦ some (node_id, panel_url, node_secret)
    ]
  ]
]

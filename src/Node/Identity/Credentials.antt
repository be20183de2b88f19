-- ===== src/Node/Identity/Credentials.antt =====
-- Which identities of node-core/src/identity.rs can talk to the control plane.
use cll.Base.{ℕ, ◌≡◌, true, false, none, some}
use cll.Text.{Text, is_blank}
use cll.Node.Identity.{IdentityState}

-- The flag for the secret tells whether there is one, and a secret is not blank.
pub record IsHonest (identity : IdentityState) : Type 0 where
  pub flag : identity.node_secret_present ≡ false → identity.node_secret ≡ none
  pub secret :
      identity.node_secret_present ≡ true
      → (key : Text) × (identity.node_secret ≡ some key) × (is_blank key ≡ false)

-- What a node signs its requests to the control plane with.
pub record CanSign (identity : IdentityState) (node_id : ℕ) (panel_url key : Text) : Type 0 where
  pub numbered : identity.node_id ≡ some node_id
  pub addressed : identity.panel_url ≡ some panel_url
  pub keyed : identity.node_secret ≡ some key

-- ===== src/Node/ControlPlane.antt =====
-- node-core/src/control_plane.rs: the requests of a node to its control plane. The process
-- id, the times and the counter behind the nonces are arguments. Answers has what follows a request.
pub mod Answers
pub mod Passes
pub mod Execution
use cll.Base.{
  ℕ, ◌+◌, ◌%◌, ◌^◌, Bool, ◌&&◌, Option, none, some, [], ◌∷◌, ◌++◌, leb, max, not, if◌then◌else◌,
}
use cll.Text.{Text, bytes, trim, to_ascii_lowercase}
use cll.Text.Chars.{take_chars, contains}
use cll.Net.Display.{decimal}
use cll.Node.Config.{ControlPlaneConfig, listen_endpoint}
use cll.Node.Identity.{IdentityState, control_plane_credentials}
use cll.Node.Platform.{Platform}
use cll.Node.Runtime.{Runtime, config_revision, effective_network}

abbrev pub report_path : Text
report_path = bytes "/api/node/v1/report"

abbrev pub handshake_path : Text
handshake_path = bytes "/api/node/v1/handshake"

abbrev pub config_path : Text
config_path = bytes "/api/node/v1/config"

abbrev pub tasks_path : Text
tasks_path = bytes "/api/node/v1/tasks"

abbrev pub post : Text
post = bytes "POST"

abbrev pub get : Text
get = bytes "GET"

-- `format!("{method}\n{path}\n{timestamp}\n{nonce}\n{body_sha256}")`, of both sides.
unfoldable pub canonical : Text → Text → ℕ → Text → Text → Text
canonical method path timestamp nonce body_sha256 =
    method
    ++ (b'\n'
        ∷ (path ++ (b'\n' ∷ (decimal timestamp ++ (b'\n' ∷ (nonce ++ (b'\n' ∷ body_sha256)))))))

pub record SignedRequest : Type 0 where
  pub body_sha256 : Text
  pub signature : Text

-- It fails only where the key is refused.
unfoldable pub sign_request : Platform → Text → Text → ℕ → Text → Text → Text → Option SignedRequest
sign_request platform method path timestamp nonce body secret =
    let body_sha256 = platform.encode_base64 (platform.sha256 body) in
    elim (platform.codec.hmac secret (canonical method path timestamp nonce body_sha256)) [
      | none ↦ none
      | some tag ↦
          some (record { body_sha256 = body_sha256; signature = platform.encode_base64 tag })
    ]

-- The nonce, and the counter after it.
unfoldable pub next_nonce : ℕ → ℕ → ℕ → Text × ℕ
next_nonce process_id timestamp counter = (
  decimal process_id ++ (b'-' ∷ (decimal timestamp ++ (b'-' ∷ decimal counter))),
  (counter + 1) % 2 ^ 64,
)

-- A request with its headers `X-Node-*`, as far as the node fills them in.
pub record NodeRequest : Type 0 where
  pub method : Text
  pub path : Text
  pub node_id : ℕ
  pub timestamp : ℕ
  pub nonce : Text
  pub signed : SignedRequest
  pub body : Text

-- How a node stands to its control plane.
pub record Credentials : Type 0 where
  pub node_id : ℕ
  pub node_secret : Text

-- What every request is made of: time, nonce, signature.
unfoldable pub node_request :
    Platform → Credentials → ℕ → Text → Text → Text → Text → Option NodeRequest
node_request platform credentials timestamp nonce method path body =
    elim (sign_request platform method path timestamp nonce body credentials.node_secret) [
      | none ↦ none
      | some signed ↦ some (record {
        method = method;
        path = path;
        node_id = credentials.node_id;
        timestamp = timestamp;
        nonce = nonce;
        signed = signed;
        body = body;
      })
    ]

-- The end of `send()`: an error, or a status and the text of the body where it can be read.
pub data HttpAnswer : Type 0 where
  unreachable : Text → HttpAnswer
  answered : (status : ℕ) → Option Text → HttpAnswer

abbrev pub is_success : ℕ → Bool
is_success status = leb 200 status && leb status 299

unfoldable pub trim_for_log : Text → ℕ → Text
trim_for_log value max_chars = take_chars max_chars value

-- The body of an answer that is no success.
unfoldable pub rejection : Option Text → Text
unfolding trim_for_log
rejection none = trim_for_log (bytes "failed to read response body") 200
rejection (some text) = trim_for_log text 200

pub record NodeHandshake : Type 0 where
  pub node_id : ℕ
  pub node_version : Text
  pub os : Text
  pub arch : Text
  pub boot_id : Text
  pub timestamp : ℕ
  pub nonce : Text
  pub config_revision : ℕ
  pub listen_addr : Option Text

-- The constants of the build and of the machine.
pub record Machine : Type 0 where
  pub process_id : ℕ
  pub node_version : Text
  pub os : Text
  pub arch : Text
  -- The file `boot_id` of the kernel, if it can be read.
  pub boot_id_file : Option Text

unfoldable pub read_boot_id : Machine → ℕ → Text
read_boot_id machine now =
    let made_up : Text = bytes "pid-" ++ (decimal machine.process_id ++ (b'-' ∷ decimal now)) in
    elim machine.boot_id_file [
      | none ↦ made_up
      | some text ↦ elim (trim text) [ [] ↦ made_up | c ∷ boot_id ↦ c ∷ boot_id ]
    ]

unfoldable pub handshake_of : Machine → Credentials → Runtime → ℕ → Text → NodeHandshake
handshake_of machine credentials runtime timestamp nonce = record {
  node_id = credentials.node_id;
  node_version = machine.node_version;
  os = machine.os;
  arch = machine.arch;
  boot_id = read_boot_id machine timestamp;
  timestamp = timestamp;
  nonce = nonce;
  config_revision = config_revision runtime;
  listen_addr = elim (effective_network runtime) [
    | none ↦ none
    | some network ↦ some (listen_endpoint network)
  ];
}

unfoldable pub is_placeholder_panel_url : Text → Bool
is_placeholder_panel_url panel_url =
    contains (to_ascii_lowercase (trim panel_url)) (bytes "api.example.com")

-- What `spawn_control_plane` starts the three loops with, if it starts them: the credentials, and the
-- seconds between two reports and between two polls.
unfoldable pub spawn_settings :
    Option ControlPlaneConfig → Option ℕ → IdentityState → Option (Credentials × ℕ × ℕ)
spawn_settings none report_interval identity = none
spawn_settings (some control) report_interval identity =
    if not control.enabled then none else elim (control_plane_credentials identity) [
      | none ↦ none
      | some (node_id, panel_url, node_secret) ↦
          if is_placeholder_panel_url panel_url
          then none
          else some (
            record { node_id = node_id; node_secret = node_secret },
            max (elim report_interval [ none ↦ 30 | some interval_sec ↦ interval_sec ]) 5,
            max control.config_poll_interval_sec 5,
          )
    ]

-- ===== src/Lib.antt =====
-- A verification library for the node kernel of the game accelerator, for the parts of its control
-- plane that the kernel depends on, and for the tunnel codec of its client probe.
--
-- The program. A node (node-core) answers payloads from clients over UDP, TCP and QUIC. A probe opens
-- a session, with authority if it brings a token that the control plane signed with the secret of the
-- node; the token may sign a route policy by its hash. `session.data` and raw tunnel packets then
-- echo or relay a payload on behalf of a session, to a target that the policy of the session allows.
-- The control plane (control-api) keeps a table of nodes and one of tasks for them. A node signs its
-- requests to it: it shakes hands, reports, takes over configurations and polls for tasks. A business
-- backend asks the control plane for a ticket: it checks and binds the route policy, chooses a node,
-- and signs the token that opens the session there. The client probe (client-probe) encodes the raw
-- tunnel packets and decodes the responses.
--
-- The files.
--   Base, Text, Net, Wire: what the source uses of Rust's standard library. Texts are UTF-8 bytes;
--     Text.Map is a table by texts; Net has the parser and the printer of addresses; Wire has the
--     big-endian integers.
--   Node.RoutePolicy: node-core/src/route_policy.rs. Cidr, Host and Match describe what it
--     allows.
--   Node.Auth: node-core/src/auth.rs. Claims and Verify describe what it accepts.
--   Node.SessionStore: node-core/src/session_store.rs. Invariant, Grants, Refinement and Expiry are
--     about the table, its abstract view, and the life of a session.
--   Node.Probe, Node.Relay, Node.Target, Node.SessionData, Node.RawTunnel, Node.Tunnel, Node.Messages,
--     Node.Replies, Node.Code: node-core/src/session.rs, by its functions. `build_probe_response`,
--     `build_session_data_response` and `build_raw_udp_tunnel_response` keep their names; the parts
--     of the last two are `data_*` and `raw_*`, in the order of the source.
--   Node.Task: the tasks of tokio. A task stops where the source awaits a lookup or a relay. Rely and
--     Relays say what holds of a task wherever it stops.
--   Node.Platform: the third-party code, as a record of functions, and the state of a node.
--   Node.Listener: `parse_client_message` and `handle_client_payload`, node-core/src/listener.rs.
--     Keeping and Relaying are about every payload, Interleaving about every order of tasks.
--   Node.Stats: `RuntimeStats` of node-core/src/state.rs. Snapshot: what the health endpoint reads.
--   Node.Runtime: the configuration of node-core/src/state.rs and `NetworkConfig` of
--     node-core/src/config.rs.
--   Node.Config: the validation and the endpoints of node-core/src/config.rs.
--   Node.Identity: node-core/src/identity.rs.
--   Node.ControlPlane: the signed requests of node-core/src/control_plane.rs. Answers has what the node
--     makes of an answer, Passes one pass of the configuration loop, Execution a task.
--   Control: control-api/src/main.rs. Table has the statements of SQL, and Error the answers that are
--     errors.
--   Control.Nodes: the rows of `accel_nodes` and their updates.
--   Control.NodeApi: `node_handshake`, `node_config` and the check of a signed request. Authentic
--     describes the requests that pass; Signing and Handshake follow a node to its control plane, and
--     Settings follows the settings of an operator to the node.
--   Control.Reports: `node_report`. Signals is about every order of handshakes and reports.
--   Control.Tasks: the table `node_remote_tasks`, with the results in Results. History has the calls
--     in any order; Valid, Claim, Weight and Once are about what happens at most once, Wait and
--     Progress about what happens, and Completed about a task from its node and back.
--   Control.Intent: the requests for tickets, with the validation in Checks. Route: the routes that
--     come out.
--   Control.Ticket: the ticket, from the choice of a node to the answer. Choice and Best are about
--     the node for a game; Issued, Accepted and Opens follow the ticket to its node.
--   Control.Policy: `validate_route_policy` of control-api/src/main.rs. WellFormed
--     describes the policies that it binds, and Binding follows them to a node.
--   Probe.Tunnel: the tunnel codec of client-probe/src/main.rs.
--   Tests: runs at concrete inputs.
--
-- How the model stands to the code.
--   * The clock is an argument, read once for each stretch of code between two awaits, which runs
--     without another task between its steps. Other tasks come in at the awaits, and may then leave
--     any state that the theorem at hand allows.
--   * A mutex is the state behind it with its poison flag. Counters are numbers of 64 bits that wrap
--     around; lengths are numbers without a bound, as no list in memory reaches 2 ^ 64.
--   * Error and status codes are constructors, with their texts in Node.Code where they go over the
--     wire. Error messages are constructors, one for each message, without the text of an error of
--     the operating system. Log lines are left out.
--   * base64, HMAC-SHA-256, SHA-256 and serde_json are the records `Codec` and `Platform`, and readers
--     and encoders that are arguments. Only round trips assume something of them: `IsBase64`,
--     `IsTicketCodec` and `IsSigner` say that base64 and the JSON of the claims read back and that
--     tags are bytes. The headers of a request are a function that may find nothing or no text.
--   * A table of the database is the list of its rows, in the order of their ids. A SQL statement, or
--     the statements of one transaction, are one step, and the database always answers: the errors
--     of a connection are left out, the unique key that the code relies on is not. Columns that no
--     modelled code reads, the audit logs, and the fields of an answer that repeat the request or
--     are for display are left out. Texts compare without regard to case where the collation does.
--   * Sums of seconds do not reach 2 ^ 64. A node has one row, and a panic of `expect` in a handler
--     is the error `internal`.
--   * The sockets and the resolver are the answers that a task goes on with.
--   * An IPv6 address has no flow label and no scope. The printer of numbers has fuel for the 20
--     digits of 64 bits; no other definition has fuel.
--
-- Not modelled: the socket loops and the bind errors of listener.rs, the persistence in
-- config.rs, the timers and the HTTP client of control_plane.rs, quic_tunnel.rs, health.rs,
-- cli.rs and main.rs of node-core/src, the rest of the client probe, backend-mock, the dashboard, the
-- installer and the schema: input and output around the functions that are modelled, or parts of
-- their own. Of control-api: the catalogue of games, the handlers around the tickets, the
-- sessions and the rights of operators, installation over SSH, alerts, logs and settings, which the
-- modelled parts do not use.
pub mod Base
pub mod Text
pub mod Net
pub mod Wire
pub mod Node
pub mod Control
pub mod Probe
pub mod Tests

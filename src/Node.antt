-- ===== src/Node.antt =====
-- The node kernel, node-core/src.
pub mod Code
pub mod Messages
pub mod RoutePolicy
pub mod Auth
pub mod SessionStore
pub mod Tunnel
pub mod Stats
pub mod Runtime
pub mod Config
pub mod Replies
pub mod Platform
pub mod Relay
pub mod Task
pub mod Identity
pub mod Probe
pub mod Target
pub mod SessionData
pub mod RawTunnel
pub mod Listener
pub mod ControlPlane

-- ===== src/Probe.antt =====
-- The diagnostic client, client-probe/src.
pub mod Tunnel

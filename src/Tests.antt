-- ===== src/Tests.antt =====
-- Runs of the development at concrete inputs.
mod Toy
mod Policies
mod Tokens
mod Store
mod Frames
mod Configs
mod Nodes
mod Tickets
mod Settings
mod Signing
mod Sync
mod TaskQueue
mod Intents
mod Choices

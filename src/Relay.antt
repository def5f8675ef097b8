-- ===== src/Relay.antt =====
-- crates/pavis-relay/src: the relay takes configurations in, keeps them on disk and serves them.
pub mod Disk
pub mod Names
pub mod Storage
pub mod Runtime
pub mod Publish
pub mod Start
pub mod ETag
pub mod Serve
pub mod Pipeline
mod Tests

-- ===== src/Upstream.antt =====
-- crates/pavis/src/upstream: the health of the endpoints of an upstream, and the cluster that
-- chooses among them.
pub mod Health
pub mod Cluster
pub mod Pool
mod Tests

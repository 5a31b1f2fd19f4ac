-- ===== src/Cluster.antt =====
-- src/clustering/: the link between master and slaves.
pub mod Framing
pub mod Handshake
pub mod Nodes
pub mod Discovery
pub mod Listeners
pub mod Network
pub mod Rediscovery
pub mod Rejoin
pub mod Calls
pub mod Sending

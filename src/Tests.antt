-- ===== src/Tests.antt =====
-- Tests of the definitions on small inputs, and each property at an input that meets its hypotheses.
mod Schedules
mod Queues
mod Messages
mod Links
mod Requests
mod Sockets
mod Senders
mod Pushes
mod Services
mod Starts
mod Handshakes
mod Nodes
mod Settings
mod Discovery
mod Clusters

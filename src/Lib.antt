-- ===== src/Lib.antt =====
-- Grandma Scheduling Services: a server that takes messages over HTTP, hands them from a master node
-- to slave nodes over TCP, keeps them until they are due, and delivers them. An HTTP request
-- becomes a message object; the cluster's nodes pass messages as framed payloads; a schedule waits
-- in two maps that a timer empties slot by slot; what is due goes through a circular queue to the
-- senders.
--
-- Prelude: what the parts share. `Outcome` is how Go code ends (a result, a panic, or waiting for
--   ever), `Result` is a pair of a value and an error, `Dict` a Go map as a list of entries.
-- Strconv: strconv.Itoa, Atoi, ParseInt and strings.Split as far as the program relies on them.
-- Message: src/message/message.go and utils.go. `new_message_object` is NewMessageObject,
--   `get_message_payload` and `new_message_from_payload` are the methods of the same names.
-- Queue: src/queue/queue.go. `GrandmaQueue` holds `queue`, `front` and `pointer`; the configured
--   length is the parameter `queue_length`. Queue/Deque is its specification.
-- Schedule: src/schedule/keystore.go (Keystore: `data_map`, `time_table`, the lock) and timer.go
--   (Timer: `current_time`, `counter`, the tick and what it fires), connector.go (Database) and
--   schedule.go (Service: filing, recovery and pushing over the calls of the database, which are
--   parameters).
-- Cluster: src/clustering/network.go and bytesutils.go: the framing of messages on a stream
--   (Framing), and the handshake of a master and a slave as scripts of writes and reads (Handshake); with
--   manage.go and clustering.go: the loops that read messages (Listeners), DistCalls and what a slave
--   does with a message (Calls), the slaves of a master with their lock (Nodes), how it comes to them
--   (Discovery) and looks for those it has lost (Rediscovery), the queue of what is to be sent to
--   them (Sending), how a node starts (Network), and how a slave waits for a master that it has lost
--   (Rejoin).
-- Json: src/jsonwrapper/jsonwrapper.go on decoded JSON.
-- Server: routes.go and src/signature/signature.go, the HTTP handler. What becomes of an accepted
--   message is a parameter; in Server/Scheduling it is DistCalls. Server/Main is main of server.go.
-- Mapping: src/mapping/mapping.go and payload.go, batches of calls read from JSON.
-- Ws: src/ws/ws.go, the live connections of each id, and their goroutines (Sockets).
-- Distributor: src/distributor/distributor.go, rest.go and websocket.go, what is done with a message
--   that is due; Services has sms.go, push.go and email.go.
-- Conf: src/conf/config.go: the settings, what each key of a configuration file sets (Keys), flags and
--   files (Files).
-- Tests: the definitions on small inputs.
--
-- Bounds: the clock, the slots and the indices are natural numbers; where an int of the source may
-- be negative it is a ℤ, or the shift is said. `itoa` works on fuel, as much as the number itself,
-- and takes off a digit a step; a handshake is run for 20 turns, which are enough. The loops of
-- `readData` are on the list of what the calls of `Read` return, which ends in an error, as a stream
-- does.
--
-- Not modelled: timers and deadlines but for the order in which they fire, logs, and the libraries
-- under src/github.com.
pub mod Prelude
pub mod Strconv
pub mod Cluster
pub mod Conf
pub mod Distributor
pub mod Json
pub mod Mapping
pub mod Message
pub mod Queue
pub mod Schedule
pub mod Server
pub mod Tests
pub mod Ws

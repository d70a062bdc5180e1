-- ===== src/Lib.antt =====
-- podping.alpha: the front-end server that takes pings from publishers over HTTP and queues them
-- (podping, with podping/dbif for the database), and the writers, listeners and monitors that carry
-- them over a gossip network. This library models the parts below and proves what makes them
-- correct.
--
-- Parts and files:
-- - Ping: the reasons, media and pings of podping/dbif/src/lib.rs, with the texts that `strum`
--   derives.
-- - Queue: the table `queue` of podping/dbif/src/lib.rs and the functions get_pings_from_queue,
--   add_ping_to_queue, update_ping_in_queue, set_ping_as_inflight, reset_pings_in_flight and
--   delete_ping_from_queue. A table is the list of its rows in the order of their rowids, and each
--   SQL text is a function on it. The engine's answers (a file opens, a statement runs, a query
--   steps to its next row, which is unwrapped) and the clock are arguments. A statement without an
--   ORDER BY visits the rows in the order of their rowids. Queue.Rows has the rows and the primary
--   key.
-- - Auth: get_publishers, check_auth and check_auth_hybrid of the same file. LIKE is a parameter.
-- - Handler: the handlers `ping` and `publishers` of podping/src/handler.rs; a handler goes on,
--   returns a response early, or panics. The decoded query, the clock and the rendered landing page
--   are arguments.
-- - Sender: the thread that podping/src/main.rs starts, with receive_messages: what the sockets
--   take, what arrives at them and what the engine answers are arguments of each round.
-- - Receiver: GossipReceiverActor of dtt-fork/src/gossip/receiver.rs: what wakes the actor is a
--   list of stream items and calls of `next`; `sends` logs what is sent to each caller, which
--   is lost if that caller has given up.
-- - Writer: split_iris_to_fit and flush_batch of gossip-writer/src/main.rs, with the thread that
--   receives pings in Writer.Polling; Writer.Notification: gossip-writer/src/notification.rs. The
--   order in which a HashMap yields its keys is an argument.
-- - Peers: save_peer_if_new, which gossip-writer/src/main.rs and gossip-listener/src/main.rs share;
--   what the disk answers is an argument.
-- - Archive: store, messages_since and latest_timestamp of gossip-listener/src/archive.rs.
-- - Listener: handle_event of gossip-listener/src/main.rs, on a record of the state it shares;
--   Listener.Events has the handlers, the module itself the state and the checks of signatures.
-- - Catchup: ArchiveSyncHandler::accept and run_catchup of gossip-listener/src/main.rs.
-- - Record: dtt-fork/src/crypto/record.rs, with the functions of Record, EncryptedRecord and
--   RecordPublisher; the topic's keys, HPKE and signatures are arguments.
-- - Swarm: the peer registry of gossip-monitor/src/swarm.rs, with update,
--   prune_stale and (in Monitor/Snapshot) snapshot; Swarm/Log is its SuggestionLog.
-- - Topology: gossip-monitor/src/topology.rs, all its functions (components is step 2 of
--   analyze_topology, Adjacency its step 1, Analysis the rest); the operations of f64 are an
--   argument, and so are the orders in which the analysis iterates its sets and maps. A sort that
--   meets a NaN counts as a panic. The search has as much fuel as the map has neighbors, and the one for shortest paths as there are nodes.
-- - Monitor: gossip-monitor/src/main.rs, a round of each task that runs beside main (wake is the
--   reconnection monitor, receive a round of spawn_receive_task); Monitor/Steps orders them freely;
--   Monitor/Snapshot is snapshot of gossip-monitor/src/swarm.rs, and Monitor/Suggest the task that
--   analyses the topology and broadcasts suggestions. The JSON of a message always serializes.
-- - Merge: the merges of dtt-fork/src/gossip/merge, with the record of
--   dtt-fork/src/gossip/topic/publisher.rs (content_of) and GossipSender::join_peers.
-- - Bootstrap: the loop of dtt-fork/src/gossip/topic/bootstrap.rs, round by round.
--
-- They meet at the queue: Handler adds to it, Sender reads, marks, resets and deletes.
-- Sender's messages reach Writer, whose replies Sender takes for deliveries; Writer's notifications
-- reach Listener, which archives them in Archive; Catchup hands one listener's archive to another.
-- In the monitor, Monitor hands announcements to Swarm, whose snapshots Topology analyses. Receiver,
-- Record, Bootstrap and Merge are the parts of dtt-fork that every node of the network runs.
--
-- Bounds: times, counters and sizes are natural numbers; none of them comes near 2 ^ 64 in the
-- program. Loops recur on a list; Catchup reads its stream on
-- fuel, the length of the stream, which is enough since every turn takes a byte or stops. The two
-- searches of Topology run on fuel too, where spent fuel counts as a panic, which the theorems
-- exclude. The counters of Monitor wrap at 2 ^ 32 and 2 ^ 64.
--
-- Not modelled: the contents of Cap'n Proto, JSON and gossip packets, which arrive as what is read
-- from them; logging; sockets, tasks and timers; the creation of the database files;
-- the choice of a peer to catch up with; printed text, but for the slices of it that may panic; the
-- clean-up of a friendly name; the main functions of the writer and the listener, with their timers
-- and reconnections; key files; the pages of gossip-monitor; the DHT client, the topics and the keys
-- of dtt-fork, with the queues of its actors and their timers; the generated
-- schema code; the stresser and the examples.
pub mod Prelude
pub mod Ping
pub mod Queue
pub mod Auth
pub mod Handler
pub mod Sender
pub mod Receiver
pub mod Writer
pub mod Archive
pub mod Peers
pub mod Listener
pub mod Catchup
pub mod Record
pub mod Swarm
pub mod Topology
pub mod Monitor
pub mod Merge
pub mod Bootstrap

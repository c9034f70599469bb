-- ===== src/Lib.antt =====
-- The verification library of realtime-room-middleware: a Go server in which players share a room,
-- move in it, lock its objects, and are told at a fixed rate what changed around them.
--
-- The parts, and the files that model them (paths from the repository's root):
--   Object, Object/Lock    internal/game/object: the objects of a room, and leases on them
--   Session                internal/game/session: the registry of connected clients
--   Player                 internal/game/player: player state, and the checks on client input
--   Delta                  internal/game/delta: what a viewer is told at a broadcast
--   Spatial, Interest      internal/game/spatial, internal/game/interest: who is near a viewer
--   Cluster                internal/game/cluster: K-means groups of players
--   Protocol               internal/protocol: the envelope of every packet and its codec, the bodies
--                          of the packets (Messages), and a body in an envelope (Wrapping)
--   Handler                internal/game/handler: from a decoded envelope to a room's queue
--   Receive                internal/app/realtime/receive.go: from the bytes of a packet to the handler
--   Bridge                 internal/game/bridge and internal/app/realtime/dispatch.go: from the
--                          batches of a room to packets in the send queues
--   Transport              internal/transport: a session as the bridge sees it, and the KCP server
--                          that accepts and closes sessions (Kcp)
--   Config                 internal/config: the configuration, its checks (Validate), Load
--   Gateway                internal/gateway: who may join, and where to
--   Room                   internal/game/room: the room that owns the game state, its command loop
--                          (Commands, Tick), its schedule (Cadence), its broadcasts (Broadcast),
--                          its life (Lifecycle), and the rooms of a server (Manager, Registry)
--   Middleware             all of these together
--   Base                   maps, counters, integers, floats as a parameter, and tests
--   Examples               concrete runs
-- A transport goroutine puts commands in the room's queue (Enqueue). Each tick of the room loop
-- expires locks, handles all queued commands, regroups the players if that is due, and broadcasts if
-- the tick is a broadcast tick. A function of the source has the model of the same name in the
-- spelling of this library (AcquireLock is acquire_lock); comments name the source function where
-- the names differ. A method that holds a mutex from start to end is one step, and interleavings of
-- goroutines are sequences of such calls (Calls, Steps, Runs). CloseRoom, Shutdown, and the Stop of a
-- room and of the KCP server let the mutex go, and are several steps. CreateRoom is one step, though it lets the registry's mutex go before it
-- enters the room in the map.
--
-- How the model stands for the code: a method on a pointer takes the record and returns the new one.
-- A Go map is an association list, and the order of a `range` is the order of the list. Session
-- objects, which two indexes share, live on a heap. An error is a value of a data type per package,
-- without its text; logging is left out. Times are nanoseconds in the natural numbers, and a lease
-- has a natural number as TTL (a negative one reads as 0). `uint32` counters wrap; an `int` is an
-- integer or, for sizes and limits, a natural number, and does not wrap. `float32`, `float64` and
-- package math are the parameter `Floats`, of which nothing is assumed but what a theorem says. The command channel is a list
-- with a capacity. K-means runs at most MaxIterations rounds, which bounds its recursion; all other
-- loops are structural.
--
-- Objects that several places point to stand in a store, by address: rooms (RoomStore, RoomManager),
-- transport sessions (SessionStore) and room instances (InMemoryRoomRegistry). A function that the
-- program is given (which room a session is in, which player it is, which sessions are connected) is
-- a parameter, as are msgpack at each type of message, Sprintf for instance ids, files, YAML and the
-- environment.
--
-- Not modelled: sockets, HTTP, process start-up, metrics and load tests, which are I/O or third-party;
-- and, so far, the WebSocket server, and the read and write loops of a session.
pub mod Base
pub mod Object
pub mod Session
pub mod Player
pub mod Delta
pub mod Spatial
pub mod Interest
pub mod Cluster
pub mod Protocol
pub mod Room
pub mod Handler
pub mod Receive
pub mod Transport
pub mod Bridge
pub mod Middleware
pub mod Config
pub mod Gateway
pub mod Examples

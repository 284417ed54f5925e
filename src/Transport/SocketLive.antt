-- ===== src/Transport/SocketLive.antt =====
-- common/src/transport_socket_live.cpp: the transport on TCP and UDP sockets. The calls of the
-- operating system are not the repository's: their answers are arguments, as lists in the order of
-- the calls. A clock holds what the code reads of the clocks.
pub mod State
pub mod Delivery
pub mod Sockets
pub mod Console
pub mod Replay
pub mod Frames
pub mod Viewer
pub mod Poll
pub mod Stream
pub mod Batches
pub mod Faults
pub mod Progress
pub mod Kept
pub mod Sends
pub mod Draining
pub mod Soundness
pub mod Requests
pub mod Ghosts

-- ===== src/Server.antt =====
-- src/datagram.c: the server as a whole. `tnfs_decode` takes a request to its session and its command;
-- the handlers of the two sockets call it, and connections come and go.
pub mod Tables
pub mod Decode
pub mod Answers
pub mod Calls
pub mod ReadOnly
pub mod Confined
pub mod Keeps
pub mod Sound
pub mod Event
pub mod Connections
pub mod Loop
pub mod Refusals
pub mod Sockets
pub mod Startup

-- ===== src/Life.antt =====
-- src/core/connection.cpp: a connection from `conn_init` to `conn_close`, with the blocks of memory that it
-- owns and the events that it waits for.
pub mod Blocks
pub mod Conn
pub mod Events
pub mod Unread
pub mod Phases
pub mod Sound
pub mod Tls
pub mod Asks
pub mod Steps
pub mod Sending
pub mod Streams
pub mod Arrivals
pub mod Serves

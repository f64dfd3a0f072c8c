-- ===== src/Connection.antt =====
-- src/core/connection.cpp: a connection from its first byte to its last.
pub mod Body
pub mod Cookies
pub mod Headers
pub mod Line
pub mod Mime
pub mod Process
pub mod Read
pub mod Values

-- ===== src/Console.antt =====
-- src/modules/mgr: the console.
pub mod State
pub mod Texts
pub mod Entry
pub mod Groups
pub mod Sites
pub mod Urls
pub mod Ips
pub mod Programs
pub mod Containers
pub mod Templates
pub mod Dispatch

-- ===== src/Console/Texts.antt =====
-- src/modules/mgr: the texts of the console's pages.
pub mod Entry
pub mod Groups
pub mod Sites
pub mod Urls
pub mod Ips
pub mod Containers
pub mod Templates

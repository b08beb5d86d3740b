-- ===== src/Tests.antt =====
-- Runs of the models of PicoDB/pico on concrete inputs.
pub mod Sample
pub mod Queues
pub mod Texts
pub mod Messages
pub mod Network
pub mod Connection
pub mod Servers
pub mod Programs
pub mod Replies
pub mod Tasks
pub mod Database

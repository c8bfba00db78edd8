-- ===== src/Tests.antt =====
-- The theorems at small databases, queues and tables, and runs of the code there.
pub mod Samples
mod Tags
mod Tables
mod Events
mod Groups
mod Overrides
mod Managing
mod Mappings
mod Messages
mod Registering
mod Requests

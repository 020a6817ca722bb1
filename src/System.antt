-- ===== src/System.antt =====
-- The running system: the endpoints, the relay and any number of workers on one database and one
-- queue.
pub mod Grows
pub mod Endpoints
pub mod Begin
pub mod Work
pub mod Posts
pub mod Steps
pub mod Sight
pub mod Sound
pub mod Withdraws
pub mod Handles
pub mod Invariant

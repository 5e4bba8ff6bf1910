-- ===== src/Client.antt =====
-- The client of the replication stream: client/.
pub mod Bytes
pub mod Stream
pub mod Replication
pub mod Samples
pub mod Frames
pub mod Process
pub mod Postgres
pub mod Connect
pub mod Program
pub mod Bwtest
pub mod Tests

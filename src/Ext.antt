-- ===== src/Ext.antt =====
-- ext: the output plugin, which runs inside Postgres.
pub mod Writing
pub mod Policy
pub mod Backend
pub mod Datum
pub mod Naming
pub mod Tables
pub mod Rows
pub mod SchemaCache
pub mod Protocol
pub mod Frames
pub mod Decoder
pub mod Export
pub mod Samples
pub mod Tests

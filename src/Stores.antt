-- ===== src/Stores.antt =====
-- The event stores, crates/neurust-intel/src/store: the interface of
-- crates/neurust-core/src/contracts.rs, the store in memory and the two stores that send SQL.
pub mod EventStore
pub mod Memory
pub mod Sql
pub mod Sqlite
pub mod Postgres

-- ===== src/Service.antt =====
-- The JSON-RPC service, service/sim_api.py.
pub mod Interface
pub mod Broadcast
pub mod Verify
pub mod Multisig
pub mod Create
pub mod History
pub mod Records
pub mod Forward
pub mod Import
pub mod Query
pub mod Batch
pub mod Tests

-- ===== src/Collector.antt =====
-- The collectors of deposits and withdrawals, btc_data_collector/.
pub mod Amount
pub mod Scan
pub mod Record
pub mod Trx
pub mod BtmTrx
pub mod Store
pub mod Fetch
pub mod Sync
pub mod Tests

-- ===== src/Usdt.antt =====
-- The collector of USDT (omni_data_collector/). Its caches, flush thread and clean-up are written
-- as those of btc_data_collector/collect_btc_block.py are.
pub mod Classify
pub mod Fetch
pub mod Tests

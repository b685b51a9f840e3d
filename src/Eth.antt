-- ===== src/Eth.antt =====
-- The collector of ETH and of the tokens on it (eth_data_collector/).
pub mod Amount
pub mod Rows
pub mod Node
pub mod Store
pub mod Erc
pub mod Sync
pub mod Tests

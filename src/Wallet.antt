-- ===== src/Wallet.antt =====
-- The wallets of the service: how the plug-ins of utils/ choose coins and build transactions.
pub mod Select
pub mod Interface
pub mod Outputs
pub mod SimBtc
pub mod Hc
pub mod Btm
pub mod Omni
pub mod Ether
pub mod Tests

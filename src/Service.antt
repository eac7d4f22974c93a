-- ===== src/Service.antt =====
-- service/setup.go: what Run reads from the configuration, the modules and clients that it starts, and
-- what it does behind them.
pub mod Instance
pub mod Settings
pub mod Bootstrap
pub mod Clients
pub mod Address
pub mod Run
pub mod Wired
pub mod Order
pub mod Reads
mod Samples

-- ===== src/Config.antt =====
-- The sections of the configuration file: config/app_section.go, mysql/app_config.go,
-- redis/config.go, kafka/config.go; and config/config.go, which loads them all.
pub mod Report
pub mod App
pub mod Instances
pub mod Kafka
pub mod Load
pub mod Custom
pub mod Reported
pub mod Outcome
pub mod Samples

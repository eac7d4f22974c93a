-- ===== src/Infra.antt =====
-- The package infra: the profiler, the tracing, and the masking of secrets.
pub mod Pprof
pub mod Tracing
pub mod Mask
pub mod Server
mod Samples

-- ===== src/Redis.antt =====
-- The redis package: redis/lua.go runs a script by its digest, redis/hook.go logs commands,
-- redis/redis.go has the global client.
pub mod Lua
pub mod Hook
pub mod Pipeline
pub mod Client
pub mod Once
mod Samples

-- ===== src/Service.antt =====
-- src/service/base: the services that nodes run.
pub mod Batches
pub mod Fetch
pub mod Latch
pub mod Reply
pub mod CacheData
pub mod Parse
pub mod Callback
pub mod DoService
pub mod Rpc
pub mod Start
pub mod Concurrent
mod Examples

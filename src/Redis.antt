-- ===== src/Redis.antt =====
-- src/frame/client/redis: the client of a redis cluster.
pub mod Crc
pub mod Slots
pub mod ConnectPool
pub mod NodeText
pub mod NodeLine
pub mod Client
mod Examples

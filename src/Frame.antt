-- ===== src/Frame.antt =====
-- src/frame: the graph engine.
pub mod Node
pub mod Graph
pub mod Run
pub mod Manager
pub mod Cache
pub mod Util
pub mod Setup
mod Examples

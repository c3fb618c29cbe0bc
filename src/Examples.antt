-- ===== src/Examples.antt =====
-- Concrete inputs: runs of the models, and the theorems at work on them.
mod Line
mod Wire
mod Pools
mod Talk
pub mod Version3

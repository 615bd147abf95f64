-- ===== src/Engine.antt =====
-- The machinery of xayagame/ that drives a game along the chain.
pub mod Game
pub mod HeightCache
pub mod Memory
pub mod PendingMoves
pub mod Pruning
pub mod SampleStorage
pub mod Storage
mod EscapeTests
mod GameTests
mod PendingTests
mod Tests
pub mod Transactions

-- ===== src/Mover.antt =====
-- The Mover example game (mover/): its moves, and the processing of a block forwards and backwards.
pub mod Accepted
pub mod Moves
pub mod Logic
mod Tests

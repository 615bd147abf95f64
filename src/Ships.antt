-- ===== src/Ships.antt =====
-- The board of the ships game (ships/coord.cpp and ships/grid.cpp).
pub mod Coord
pub mod Grid
pub mod Placement
mod Tests

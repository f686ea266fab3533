-- ===== src/Geo.antt =====
-- The tiling part of `olp-cpp-sdk-core` (`olp/core/geo/tiling`).
pub mod TileKey
pub mod QuadKey
pub mod Levels
mod Tests

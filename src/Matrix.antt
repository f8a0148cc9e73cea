-- ===== src/Matrix.antt =====
-- The pattern of the sparse matrices: SUPREM4GS/upstream/src/math.
pub mod Locate
pub mod Generate
pub mod Fill
mod Tests

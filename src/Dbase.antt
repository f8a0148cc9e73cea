-- ===== src/Dbase.antt =====
-- The mesh database: SUPREM4GS/upstream/src/dbase.
pub mod ListStr
pub mod Neigh
pub mod Impurity
pub mod Waste
pub mod Nodes
pub mod Remove
mod Tests

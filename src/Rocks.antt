-- ===== src/Rocks.antt =====
-- What the program relies on of the crates it calls: RocksDB, bincode, and the lossy reading of
pub mod Table
pub mod World

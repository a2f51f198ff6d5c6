-- ===== src/Task.antt =====
-- task.rs: the task record and the keys of the store.
pub mod Types
pub mod Keys
pub use Types.{Task, u32_max}
unfoldable pub use Types.{poison}

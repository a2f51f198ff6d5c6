-- ===== src/Tenant.antt =====
-- tenant.rs: the tenant registry, its queues over three column families per tenant.
pub mod Names
pub mod State
pub mod Enqueue
pub mod Dequeue
pub mod Settle
pub mod Dlq
pub mod Overlap
pub mod Places
pub mod Lifecycle
pub mod Opening

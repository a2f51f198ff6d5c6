-- ===== src/Grpc.antt =====
-- grpc/control_plane.rs: the handlers of the control plane.
pub mod Handler
pub mod Tenants
pub mod Tasks
pub mod Operations
pub mod Views

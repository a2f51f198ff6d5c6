-- ===== src/Lib.antt =====
-- rocksqueue: a multi-tenant task queue over RocksDB, modelled and verified.
--
-- The program keeps three column families per tenant, pending, inflight and DLQ, whose records are
-- tasks under keys `queue 0x00 seq`. Producers append to pending within a quota. Workers move tasks
-- to inflight with a deadline, and acknowledge them or give them back. A reaper returns what
-- expires, compaction drops what is old, and records that cannot be decoded go to the DLQ in an
-- envelope. A scheduler and the statistics say how many tasks each tenant may have.
--
-- Which file models what (paths from the root of the repository):
-- - Task, Task/Types, Task/Keys: src/task.rs, the record, `Task::poison`, and the keys.
-- - Base/Results: src/error.rs. `Exec S A` is a method on the state S: a result, and the state, which
--   comes back beside an error too, since what a method has done before it fails stays done.
-- - Policy: src/policy.rs.
-- - Tenant: src/tenant.rs, `TenantRegistry`. Tenant/Names are the names of the column families,
--   Tenant/State the registry's fields (`db`, `seq`, the policies, the maps of locks) and the steps
--   that the methods share, Tenant/Enqueue `enqueue_batch_sync` with `enforce_quota` and
--   `evict_oldest_pending`, Tenant/Dequeue the four ways to dequeue, Tenant/Settle `ack`, `ack_batch`,
--   `nack` and `cumulative_ack`, Tenant/Dlq `purge_dlq` and `replay_dlq`, Tenant/Lifecycle the
--   provisioning and the policies of a tenant, Tenant/Opening what `open` reads back.
-- - Reaper: src/reaper.rs. Compaction: src/compaction.rs.
-- - Scheduler: src/scheduler.rs. Stats, Stats/Allocate: src/stats.rs. Worker: src/fair_worker.rs.
-- - Baseline: src/baseline.rs; what its registry reads and writes is in Store/Baselines.
-- - Store: src/stats_store.rs, the rows `stats:`, `throttle:` and `baseline:` of the system column
--   family. Throttle, Throttle/Restore: src/throttle.rs. Daemon: one cycle of src/stats_daemon.rs, and
--   `StatsCollector::warm_from_store`. Ownership: src/ownership.rs.
-- - Grpc: src/grpc/control_plane.rs. Grpc/Handler has the service's state, the status codes and
--   `offload`, Grpc/Tenants the provisioning and the policies, Grpc/Tasks enqueue, dequeue, ack and nack,
--   Grpc/Operations pause, drain, the DLQ and the throttle's release, Grpc/Views what can be asked.
-- - Startup: what src/main.rs restores between opening the registry and serving.
-- - Run: what comes of a call that may panic (`expect`) or wait for a lock that it holds itself.
-- - Tenant/Places: a relation of the calls on a tenant, one step each (Tenant/Places/Steps), for what
--   holds along every sequence of them. While a producer waits for room, other calls are steps between
--   its looks at the backlog.
-- - Bytes, Dash, Float: byte strings, `DashMap`, and the operations on `f64`, which are a parameter.
--
-- RocksDB, bincode and `from_utf8_lossy` are not part of the repository: Rocks/World.antt is a record
-- of their operations, and every definition takes it. Its record FaultFree states their documented
-- behaviour while no call fails: a column family is a table sorted by key (Rocks/Table.antt), reads
-- and iterators agree with it, a batch is applied as a whole, and a task that was encoded is decoded
-- to itself. It is a hypothesis, which the database in memory of Memory.antt meets.
--
-- Numbers are natural numbers. A `u64` or `u32` that the program increments wraps as in a release
-- build, written `% 2 ^ 64`; `saturating_sub` is the subtraction of natural numbers. A method is one
-- step: no other call runs between its reads and its writes. The locks are taken as in the source, but
-- they do not give that for every pair of calls: an enqueue and a dequeue hold the lock of their queue,
-- an acknowledgement holds another one, and `nack`, `cumulative_ack`, `purge_dlq`, `replay_dlq` and
-- `reap_inflight` hold none. Calls that overlap in the source are not covered, but for one case in
-- Tenant/Overlap: a pass of the reaper between the read and the write of `nack`.
-- Clocks and UUIDs are arguments. Two loops have no bound, a producer that waits for room and a drain:
-- they run over a given list of rounds, each with the clock and what other threads do meanwhile. A
-- clock that advances reaches the deadline after finitely many rounds; `still_waiting` and `waiting`
-- are the results on a list that ends before.
--
-- Not modelled: the options of the database, checkpoints and manual compaction, the streams of events
-- and the compaction handlers of the gRPC service and the texts of its messages, the
-- configuration, and of the start-up the wiring of the servers.
pub mod Base
pub mod Bytes
pub mod Policy
pub mod Task
pub mod Rocks
pub mod Tenant
pub mod Reaper
pub mod Compaction
pub mod Dash
pub mod Float
pub mod Run
pub mod Scheduler
pub mod Stats
pub mod Store
pub mod Throttle
pub mod Worker
pub mod Daemon
pub mod Startup
pub mod Grpc
pub mod Baseline
pub mod Ownership
pub mod Memory
pub mod Examples

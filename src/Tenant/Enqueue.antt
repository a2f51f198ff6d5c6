-- ===== src/Tenant/Enqueue.antt =====
-- tenant.rs: `enqueue_batch_sync`, `enqueue`, `enforce_quota` and `evict_oldest_pending`.
-- A payload comes with the UUID that is drawn for its task. Counts of tasks are bounded by the
-- store, so their sums do not wrap.
pub mod Append
pub mod Quota
pub mod Evict
pub mod Blocked
use rocksqueue.Base.{
  ℕ, ◌+◌, ◌-◌, ◌%◌, ◌^◌, Bool, true, false, Option, none, some, List, [], ◌∷◌, ◌++◌, if◌then◌else◌,
  ltb, leb, length, Result, ok, err, QueueError, backlog_quota_exceeded, still_waiting, Exec, pure,
  raise, reads, modify, ◌>>=◌, ◌>>◌,
}
use rocksqueue.Bytes.{Bytes}
use rocksqueue.Policy.{NamespacePolicy, BacklogPolicy, reject, block, evict_oldest}
use rocksqueue.Rocks.Table.{Entry, Batch, put_cf, delete_cf}
use rocksqueue.Rocks.World.{World}
use rocksqueue.Task.{Task}
use rocksqueue.Task.Keys.{queue_prefix, encode_key}
use rocksqueue.Tenant.Names.{cf_pending}
use rocksqueue.Tenant.State.{Registry, require_cf, write_opt, next_seq, queue_lock, depth}

-- One round of the wait of a blocked producer: the clock at its test, and what other threads do
-- while it sleeps.
pub record Poll (w : World) : Type 0 where
  pub now : ℕ
  pub others : Registry w → Registry w

-- The clock when a producer starts to wait, its rounds, and the clock when it writes.
pub record Times (w : World) : Type 0 where
  pub start : ℕ
  pub polls : List (Poll w)
  pub now : ℕ

module _ (w : World) where
  unfoldable pub evict_loop :
      (cf : Bytes) → List (Result Entry) → (count evicted : ℕ) → Batch → Result (ℕ × Batch)
  evict_loop cf [] count evicted batch = ok (evicted, batch)
  evict_loop cf (err e ∷ items) count evicted batch =
      if leb count evicted then ok (evicted, batch) else err e
  evict_loop cf (ok (key, value) ∷ items) count evicted batch =
      let rest = evict_loop cf items count (evicted + 1) (batch ++ delete_cf cf key ∷ []) in
      if leb count evicted then ok (evicted, batch) else rest

  unfoldable pub evict_oldest_pending :
      (tenant queue : Bytes) (count : ℕ) → Exec (Registry w) (Unit {0})
  evict_oldest_pending tenant queue count = do
    require_cf w (cf_pending tenant)
    (evicted, batch) ← reads (λ s.
        evict_loop (cf_pending tenant) (w.scan_prefix s.db (cf_pending tenant) (queue_prefix queue))
          count 0 [])
    if ltb 0 evicted then write_opt w batch else pure tt

  -- The loop of a blocked producer; `others` runs while it sleeps.
  unfoldable pub block_loop :
      (tenant queue : Bytes) (quota incoming deadline : ℕ)
      → List (Poll w)
      → Exec (Registry w) (Unit {0})
  block_loop tenant queue quota incoming deadline [] = raise still_waiting
  block_loop tenant queue quota incoming deadline (poll ∷ polls) = do
    (pending, inflight, _) ← depth w tenant queue
    let rest : Exec (Registry w) (Unit {0}) = do
      modify poll.others
      block_loop tenant queue quota incoming deadline polls
    if leb (pending + inflight + incoming) quota
        then pure tt
        else if leb deadline poll.now
        then raise (backlog_quota_exceeded tenant queue (pending + inflight) quota incoming)
        else rest

  unfoldable pub enforce :
      (tenant queue : Bytes) (quota incoming current : ℕ) (times : Times w)
      → BacklogPolicy
      → Exec (Registry w) (Unit {0})
  enforce tenant queue quota incoming current times reject =
      if ltb quota (current + incoming)
      then raise (backlog_quota_exceeded tenant queue current quota incoming)
      else pure tt
  enforce tenant queue quota incoming current times (block timeout_ms) =
      block_loop tenant queue quota incoming ((times.start + timeout_ms) % 2 ^ 64) times.polls
  enforce tenant queue quota incoming current times evict_oldest =
      if ltb quota (current + incoming)
      then evict_oldest_pending tenant queue (current + incoming - quota)
      else pure tt

  unfoldable pub enforce_quota :
      (tenant queue : Bytes) (policy : NamespacePolicy) (incoming : ℕ) (times : Times w)
      → Exec (Registry w) (Unit {0})
  enforce_quota tenant queue policy incoming times = elim policy.backlog_quota [
    | none ↦ pure tt
    | some quota ↦ do
      (pending, inflight, _) ← depth w tenant queue
      enforce tenant queue quota incoming (pending + inflight) times policy.backlog_policy
  ]

  -- A task as it is first written.
  abbrev pub new_task : (queue id payload : Bytes) (now : ℕ) → Task
  new_task queue id payload now = record {
    id = id;
    queue = queue;
    payload = payload;
    enqueued_at = now;
    attempts = 0;
    deadline = 0;
  }

  unfoldable pub enqueue_loop :
      (tenant queue : Bytes) (now : ℕ)
      → List (Bytes × Bytes)
      → Batch
      → List Bytes
      → Exec (Registry w) (Batch × List Bytes)
  enqueue_loop tenant queue now [] batch ids = pure (batch, ids)
  enqueue_loop tenant queue now ((id, payload) ∷ payloads) batch ids = do
    seq ← next_seq w
    value ← reads (λ _. w.serialize (new_task queue id payload now))
    enqueue_loop tenant queue now payloads
        (batch ++ put_cf (cf_pending tenant) (encode_key queue seq) value ∷ []) (ids ++ id ∷ [])

  unfoldable pub enqueue_batch_sync :
      (tenant queue : Bytes) (payloads : List (Bytes × Bytes)) (policy : NamespacePolicy)
      (times : Times w)
      → Exec (Registry w) (List Bytes)
  enqueue_batch_sync tenant queue payloads policy times = do
    queue_lock w tenant queue
    enforce_quota tenant queue policy (length payloads) times
    require_cf w (cf_pending tenant)
    (batch, ids) ← enqueue_loop tenant queue times.now payloads [] []
    write_opt w batch
    pure ids

  -- `ids.into_iter().next().unwrap()`, which panics on an empty list.
  unfoldable pub first_id : List Bytes → Option Bytes
  first_id [] = none
  first_id (id ∷ ids) = some id

  unfoldable pub enqueue :
      (tenant queue id payload : Bytes) (policy : NamespacePolicy) (times : Times w)
      → Exec (Registry w) (Option Bytes)
  enqueue tenant queue id payload policy times = do
    ids ← enqueue_batch_sync tenant queue ((id, payload) ∷ []) policy times
    pure (first_id ids)

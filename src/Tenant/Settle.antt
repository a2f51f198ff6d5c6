-- ===== src/Tenant/Settle.antt =====
-- tenant.rs: `ack`, `ack_batch`, `nack` and `cumulative_ack`.
pub mod Acks
pub mod Delivered
pub mod Within
pub mod Nacks
pub mod Single
pub mod Cumulative
pub mod Locks
use rocksqueue.Base.{
  ℕ, ◌+◌, ◌-◌, ◌==◌, Bool, true, false, Option, none, some, List, [], ◌∷◌, ◌++◌, map, if◌then◌else◌,
  ltb, leb, Result, ok, err, QueueError, and_then, Exec, pure, reads, ◌>>=◌, ◌>>◌, Ordering, ◌||◌,
}
use rocksqueue.Bytes.{Bytes, beq, compare_bytes}
use rocksqueue.Rocks.Table.{Entry, Batch, put_cf, delete_cf}
use rocksqueue.Rocks.World.{World}
use rocksqueue.Task.{Task, poison}
use rocksqueue.Task.Keys.{queue_prefix, encode_key, decode_key_seq}
use rocksqueue.Tenant.Names.{cf_pending, cf_inflight, cf_dlq}
use rocksqueue.Tenant.State.{Registry, require_cf, write_opt, next_seq, ack_lock}

-- `&key[..key.iter().position(|b| *b == 0x00).unwrap_or(key.len())]`
unfoldable pub queue_of_key : Bytes → Bytes
queue_of_key [] = []
queue_of_key (b ∷ key) = if b == 0 then [] else b ∷ queue_of_key key

-- One insertion of `sort` then `dedup`.
unfoldable pub insert_name : Bytes → List Bytes → List Bytes
insert_name k [] = k ∷ []
insert_name k (j ∷ js) = elim (compare_bytes k j) [
  | Ordering.lt ↦ k ∷ j ∷ js
  | Ordering.eq ↦ j ∷ js
  | Ordering.gt ↦ j ∷ insert_name k js
]

-- `queues.sort(); queues.dedup()`
unfoldable pub sort_dedup : List Bytes → List Bytes
sort_dedup [] = []
sort_dedup (k ∷ ks) = insert_name k (sort_dedup ks)

unfoldable pub elem : Bytes → List Bytes → Bool
elem k [] = false
elem k (j ∷ js) = beq j k || elem k js

abbrev pub max_attempts : ℕ
max_attempts = 5

module _ (w : World) where
  -- The names of the queues whose locks `ack_batch` takes, in the order in which it takes them.
  unfoldable pub ack_queues : List Bytes → List Bytes
  ack_queues keys = sort_dedup (map (λ key. w.from_utf8_lossy (queue_of_key key)) keys)

  unfoldable pub take_ack_locks : (tenant : Bytes) → List Bytes → Exec (Registry w) (Unit {0})
  take_ack_locks tenant [] = pure tt
  take_ack_locks tenant (queue ∷ queues) = do ack_lock w tenant queue; take_ack_locks tenant queues

  -- `seen` is the hash set of the loop.
  unfoldable pub ack_loop :
      (cf : Bytes) → w.Db → (keys seen : List Bytes) → Batch → ℕ → Result (Batch × ℕ)
  ack_loop cf db [] seen batch count = ok (batch, count)
  ack_loop cf db (key ∷ keys) seen batch count =
      let again = ack_loop cf db keys seen batch count in
      let fresh : Result (Batch × ℕ) = and_then (w.get_cf db cf key) λ found. elim found [
        | none ↦ ack_loop cf db keys (key ∷ seen) batch count
        | some value ↦ ack_loop cf db keys (key ∷ seen) (batch ++ delete_cf cf key ∷ []) (count + 1)
      ] in
      if elem key seen then again else fresh

  unfoldable pub ack_batch : (tenant : Bytes) (keys : List Bytes) → Exec (Registry w) ℕ
  ack_batch tenant keys = do
    require_cf w (cf_inflight tenant)
    take_ack_locks tenant (ack_queues keys)
    (batch, count) ← reads (λ s. ack_loop (cf_inflight tenant) s.db keys [] [] 0)
    if ltb 0 count then (do write_opt w batch; pure count) else pure count

  unfoldable pub ack : (tenant key : Bytes) → Exec (Registry w) Bool
  ack tenant key = do count ← ack_batch tenant (key ∷ []); pure (count == 1)

  -- The record of an inflight task that is given back; `now` is the clock of a poisoned one.
  unfoldable pub nack_value : (tenant key value : Bytes) (now : ℕ) → Exec (Registry w) (Unit {0})
  nack_value tenant key value now = elim (w.deserialize value) [
    | err e ↦ do
      bytes ←
          reads
            (λ _. w.serialize (poison w.decimal (w.from_utf8_lossy (queue_of_key key)) value now))
      write_opt w (delete_cf (cf_inflight tenant) key ∷ put_cf (cf_dlq tenant) key bytes ∷ [])
    | ok task ↦
        if leb max_attempts task.attempts
        then write_opt w
            (delete_cf (cf_inflight tenant) key ∷ put_cf (cf_dlq tenant) key value ∷ [])
        else (do
          seq ← next_seq w
          bytes ← reads (λ _. w.serialize (record task { deadline = 0 }))
          write_opt w (
              delete_cf (cf_inflight tenant) key
              ∷ put_cf (cf_pending tenant) (encode_key task.queue seq) bytes
              ∷ []))
  ]

  -- No lock is taken: `get_cf` and the write of `nack_value` are one step only where no other call
  -- runs between them.
  unfoldable pub nack : (tenant key : Bytes) (now : ℕ) → Exec (Registry w) (Unit {0})
  nack tenant key now = do
    require_cf w (cf_pending tenant)
    require_cf w (cf_inflight tenant)
    require_cf w (cf_dlq tenant)
    found ← reads (λ s. w.get_cf s.db (cf_inflight tenant) key)
    elim found [ none ↦ pure tt | some value ↦ nack_value tenant key value now ]

  unfoldable pub cumulative_loop :
      (cf : Bytes) (up_to_seq : ℕ) → List (Result Entry) → Batch → ℕ → Result (Batch × ℕ)
  cumulative_loop cf up_to_seq [] batch count = ok (batch, count)
  cumulative_loop cf up_to_seq (err e ∷ items) batch count = err e
  cumulative_loop cf up_to_seq (ok (key, value) ∷ items) batch count = elim (decode_key_seq key) [
    | none ↦ cumulative_loop cf up_to_seq items batch count
    | some seq ↦
        let rest =
          cumulative_loop cf up_to_seq items (batch ++ delete_cf cf key ∷ []) (count + 1) in
        if ltb up_to_seq seq then ok (batch, count) else rest
  ]

  -- No lock is taken: the scan and the write are one step only where no other call runs between them.
  unfoldable pub cumulative_ack : (tenant queue : Bytes) (up_to_seq : ℕ) → Exec (Registry w) ℕ
  cumulative_ack tenant queue up_to_seq = do
    require_cf w (cf_inflight tenant)
    (batch, count) ← reads (λ s.
        cumulative_loop (cf_inflight tenant) up_to_seq
          (w.scan_prefix s.db (cf_inflight tenant) (queue_prefix queue)) [] 0)
    if ltb 0 count then (do write_opt w batch; pure count) else pure count

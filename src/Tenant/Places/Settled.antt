-- ===== src/Tenant/Places/Settled.antt =====
-- Acknowledgements, returned tasks, purges and evictions keep a tenant's records in their places.
use rocksqueue.Base.{
  ℕ, ◌+◌, ◌%◌, ◌^◌, ◌<◌, ◌≡◌, refl, sym, ap, some, Result, ◌∙◌, true, List, arith,
}
use rocksqueue.Bytes.{Bytes}
use rocksqueue.Bytes.Order.{beq_iff}
use rocksqueue.Rocks.Table.{lookup}
use rocksqueue.Rocks.World.{World, FaultFree}
use rocksqueue.Task.Keys.{encode_key}
use rocksqueue.Tenant.Names.{cf_pending, cf_inflight, cf_dlq}
use rocksqueue.Tenant.Names.Distinct.{
  inflight_pending, inflight_dlq, dlq_pending, dlq_inflight, pending_inflight, pending_dlq,
}
use rocksqueue.Tenant.State.{Registry}
use rocksqueue.Tenant.State.View.{pending, inflight, dlq, commit, commit-seq, commit-Provisioned}
use rocksqueue.Tenant.State.Deletions.{deletions, table-deletions, table-deletions_other}
use rocksqueue.Tenant.Settle.{ack_batch, nack, cumulative_ack}
use rocksqueue.Tenant.Settle.Single.{is_found}
use rocksqueue.Tenant.Settle.Acks.{ack_batch_run}
use rocksqueue.Tenant.Settle.Cumulative.{cumulative_run}
use rocksqueue.Tenant.Settle.Nacks.{Nacked, ToDlq, Retried, nack_lem}
use rocksqueue.Tenant.Dlq.{purge_dlq}
use rocksqueue.Tenant.Dlq.Purge.{purge_run}
use rocksqueue.Tenant.Places.{present, IsWellPlaced}
use rocksqueue.Tenant.Places.Tables.{present-delete_all, present-delete, present-put, found-lookup}
use rocksqueue.Tenant.Places.Kept.{well_placed}
use rocksqueue.Tenant.Places.Moves.{numbered_mono, encode_key-Between}

module _ {w : World} (ff : FaultFree w) (tenant : Bytes) where
  module _ (ks : List Bytes) (s : Registry w) (h : IsWellPlaced ff tenant s) where
    inflight_deleted : IsWellPlaced ff tenant (commit ff (deletions (cf_inflight tenant) ks) s)
    inflight_deleted =
        let cf = cf_inflight tenant in
        let other = table-deletions_other ff cf ks s h.provisioned.has_inflight in
        well_placed ff tenant _ _ _ _ _ (commit-Provisioned ff tenant _ s h.provisioned)
          (other (cf_pending tenant) (inflight_pending tenant tenant))
          (table-deletions ff cf ks s h.provisioned.has_inflight)
          (other (cf_dlq tenant) (inflight_dlq tenant tenant)) (commit-seq ff _ s)
          (λ k. ground (arith, present-delete_all k ks (inflight ff tenant s), h.placed k))

    dlq_deleted : IsWellPlaced ff tenant (commit ff (deletions (cf_dlq tenant) ks) s)
    dlq_deleted =
        let cf = cf_dlq tenant in
        let other = table-deletions_other ff cf ks s h.provisioned.has_dlq in
        well_placed ff tenant _ _ _ _ _ (commit-Provisioned ff tenant _ s h.provisioned)
          (other (cf_pending tenant) (dlq_pending tenant tenant))
          (other (cf_inflight tenant) (dlq_inflight tenant tenant))
          (table-deletions ff cf ks s h.provisioned.has_dlq) (commit-seq ff _ s)
          (λ k. ground (arith, present-delete_all k ks (dlq ff tenant s), h.placed k))

    pub pending_deleted : IsWellPlaced ff tenant (commit ff (deletions (cf_pending tenant) ks) s)
    pending_deleted =
        let cf = cf_pending tenant in
        let other = table-deletions_other ff cf ks s h.provisioned.has_pending in
        well_placed ff tenant _ _ _ _ _ (commit-Provisioned ff tenant _ s h.provisioned)
          (table-deletions ff cf ks s h.provisioned.has_pending)
          (other (cf_inflight tenant) (pending_inflight tenant tenant))
          (other (cf_dlq tenant) (pending_dlq tenant tenant)) (commit-seq ff _ s)
          (λ k. ground (arith, present-delete_all k ks (pending ff tenant s), h.placed k))

  -- A registry with the same database and the same counter.
  pub same_places :
      (s s' : Registry w)
      → s'.db ≡ s.db
      → s'.seq ≡ s.seq
      → IsWellPlaced ff tenant s
      → IsWellPlaced ff tenant s'
  same_places s s' a b h = record {
    provisioned = record {
      has_pending = rw a h.provisioned.has_pending;
      has_inflight = rw a h.provisioned.has_inflight;
      has_dlq = rw a h.provisioned.has_dlq;
    };
    placed = λ k. rw (a, b) (h.placed k);
  }

  pub ack_batch-IsWellPlaced :
      (ks : List Bytes) (s : Registry w)
      → IsWellPlaced ff tenant s
      → IsWellPlaced ff tenant (ack_batch w tenant ks s).1
  ack_batch-IsWellPlaced ks s h =
      let run = ack_batch_run ff tenant ks s h.provisioned in
      let s' = record s { ack_locks = run.1 } in
      rw run.2 (inflight_deleted run.0 s' (same_places s s' refl refl h))

  pub cumulative_ack-IsWellPlaced :
      (queue : Bytes) (up_to : ℕ) (s : Registry w)
      → IsWellPlaced ff tenant s
      → IsWellPlaced ff tenant (cumulative_ack w tenant queue up_to s).1
  cumulative_ack-IsWellPlaced queue up_to s h =
      rw (cumulative_run ff tenant queue up_to s h.provisioned) (inflight_deleted _ s h)

  pub purge_dlq-IsWellPlaced :
      (s : Registry w) → IsWellPlaced ff tenant s → IsWellPlaced ff tenant (purge_dlq w tenant s).1
  purge_dlq-IsWellPlaced s h = rw (purge_run ff tenant s h.provisioned) (dlq_deleted _ s h)

  module _ (key : Bytes) (v : Bytes) (s s' : Registry w) (h : IsWellPlaced ff tenant s)
      (found : present key (inflight ff tenant s) ≡ true) where
    ToDlq-IsWellPlaced : ToDlq ff tenant key v s s' → IsWellPlaced ff tenant s'
    ToDlq-IsWellPlaced t =
        well_placed ff tenant s' _ _ _ _ t.provisioned t.pending_kept t.inflight_gone t.in_dlq
          t.seq_kept
          (λ k. ground (
            arith,
            present-delete key k (inflight ff tenant s),
            present-put key k v (dlq ff tenant s),
            beq_iff key k,
            h.placed k,
            found,
          ))

    Retried-IsWellPlaced :
        (queue : Bytes)
        → s.seq + 1 < 2 ^ 64
        → Retried ff tenant key queue v s s'
        → IsWellPlaced ff tenant s'
    Retried-IsWellPlaced queue b t =
        let next : (s.seq + 1) % 2 ^ 64 ≡ s.seq + 1 = omega (arith, b) in
        let new = encode_key queue s.seq in
        let range =
          encode_key-Between queue s.seq s.seq (s.seq + 1) (omega arith) (omega arith)
            (omega (arith, b)) in
        well_placed ff tenant s' _ _ _ _ t.provisioned t.requeued t.inflight_gone t.dlq_kept
          (t.seq_next ∙ next)
          (λ k. ground (
            arith,
            present-delete key k (inflight ff tenant s),
            present-put new k v (pending ff tenant s),
            beq_iff new k,
            range,
            numbered_mono s.seq (s.seq + 1) k (omega arith),
            h.placed k,
          ))

  pub nack-IsWellPlaced :
      (key : Bytes) (now : ℕ) (s : Registry w)
      → s.seq + 1 < 2 ^ 64
      → IsWellPlaced ff tenant s
      → IsWellPlaced ff tenant (nack w tenant key now s).1
  nack-IsWellPlaced key now s b h = go _ (nack_lem ff tenant key now s h.provisioned)
    where
      at :
          (v : Bytes)
          → lookup key (inflight ff tenant s) ≡ some v
          → present key (inflight ff tenant s) ≡ true
      at v e = sym (found-lookup key (inflight ff tenant s)) ∙ ap is_found e

      go :
          (r : Result (Unit {0}) × Registry w)
          → Nacked ff tenant key now s r
          → IsWellPlaced ff tenant r.1
      go r (Nacked.absent e q) = rw q h
      go r (Nacked.unreadable v e l d o t) = ToDlq-IsWellPlaced key _ s r.1 h (at v l) t
      go r (Nacked.exhausted v task l d m o t) = ToDlq-IsWellPlaced key v s r.1 h (at v l) t
      go r (Nacked.requeued v task l d m o t) =
          Retried-IsWellPlaced key _ s r.1 h (at v l) task.queue b t

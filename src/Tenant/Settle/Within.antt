-- ===== src/Tenant/Settle/Within.antt =====
-- A bounded dequeue and the acknowledgement of what it handed out.
use rocksqueue.Base.{
  ℕ, ◌+◌, ◌-◌, ◌==◌, ◌≡◌, refl, ap, ◌∙◌, List, [], map, length, min, leb, Result, ok, err, sym,
  Bool-cases, inl, inr, arith,
}
use rocksqueue.Bytes.{Bytes}
use rocksqueue.Rocks.Table.Lookup.{table_ext}
use rocksqueue.Rocks.World.{World, FaultFree}
use rocksqueue.Task.{Task}
use rocksqueue.Tenant.Dequeue.{dequeue_with_max_inflight, dequeue_batch_unlocked}
use rocksqueue.Tenant.Dequeue.Limit.{in_flight, limited_run}
use rocksqueue.Tenant.Enqueue.Append.{locked}
use rocksqueue.Tenant.Places.{IsWellPlaced}
use rocksqueue.Tenant.Places.Kept.{dequeue-IsWellPlaced}
use rocksqueue.Tenant.Places.Reach.{locked-IsWellPlaced}
use rocksqueue.Tenant.Settle.{ack_batch, elem}
use rocksqueue.Tenant.Settle.Acks.{ack_batch_lem}
use rocksqueue.Tenant.Settle.Delivered.{dequeue-ack_batch, handed_out}
use rocksqueue.Tenant.State.{Registry, queue_lock}
use rocksqueue.Tenant.State.View.{Provisioned, pending, inflight, dlq}

-- What a batch of acknowledgements does on `r` for all that was handed out between `s` and `r`.
pub record AckedBack {w : World} (ff : FaultFree w) (tenant : Bytes)
    (dequeued : List (Bytes × Task)) (s r : Registry w) : Type 0 where
  pub all_counted : (ack_batch w tenant (map (λ e. e.0) dequeued) r).0 ≡ ok (length dequeued)
  pub all_moved : length dequeued + length (inflight ff tenant s) ≡ length (inflight ff tenant r)
  pub inflight_back :
      inflight ff tenant (ack_batch w tenant (map (λ e. e.0) dequeued) r).1 ≡ inflight ff tenant s
  pub pending_kept :
      pending ff tenant (ack_batch w tenant (map (λ e. e.0) dequeued) r).1 ≡ pending ff tenant r
  pub dlq_kept : dlq ff tenant (ack_batch w tenant (map (λ e. e.0) dequeued) r).1 ≡ dlq ff tenant r

abbrev count_or_zero : Result ℕ → ℕ
count_or_zero (ok n) = n
count_or_zero (err e) = 0

module _ {w : World} (ff : FaultFree w) (tenant queue : Bytes) (clock : ℕ → ℕ) where
  unlocked_acked :
      (limit visibility_timeout_ms : ℕ) (s : Registry w)
      → IsWellPlaced ff tenant s
      → (dequeued : List (Bytes × Task)) × (r : Registry w) × (dequeue_batch_unlocked w tenant queue
            clock limit visibility_timeout_ms s
          ≡ (ok dequeued, r))
        × AckedBack ff tenant dequeued s r
  unlocked_acked limit vt s h =
      let d = dequeue-ack_batch ff tenant queue clock limit vt s h in
      let r = (dequeue_batch_unlocked w tenant queue clock limit vt s).1 in
      let out = handed_out ff tenant queue clock limit vt s h in
      let placed = dequeue-IsWellPlaced ff tenant queue clock limit vt s h in
      let a = ack_batch_lem ff tenant (map (λ e. e.0) out) r placed.provisioned in
      (
        out,
        r,
        λ i. (d.1 i, r),
        record {
          all_counted = d.2 ∙ ap ok d.3;
          all_moved = omega (arith, a.2, d.3, ap length d.4, ap count_or_zero (sym a.1 ∙ d.2));
          inflight_back = d.4;
          pending_kept = a.4;
          dlq_kept = a.5;
        },
      )

  none_acked :
      (s r : Registry w)
      → Provisioned w tenant r
      → inflight ff tenant r ≡ inflight ff tenant s
      → AckedBack ff tenant [] s r
  unfolding elem
  none_acked s r p e =
      let a = ack_batch_lem ff tenant [] r p in
      let same : inflight ff tenant (ack_batch w tenant [] r).1 ≡ inflight ff tenant r =
        table_ext _ _ (ff.table_sorted _ _) (ff.table_sorted _ _) (λ j. a.3 j) in
      record {
        all_counted = a.1 ∙ ap ok (omega (arith, a.2, ap length same));
        all_moved = omega (arith, ap length e);
        inflight_back = same ∙ e;
        pending_kept = a.4;
        dlq_kept = a.5;
      }

  pub within_acked :
      (limit visibility_timeout_ms max_inflight : ℕ) (s : Registry w)
      → IsWellPlaced ff tenant s
      → (dequeued : List (Bytes × Task)) × (r : Registry w) × (dequeue_with_max_inflight w tenant
            queue clock limit visibility_timeout_ms max_inflight s
          ≡ (ok dequeued, r))
        × AckedBack ff tenant dequeued s r
  unfolding dequeue_with_max_inflight queue_lock
  within_acked limit vt bound s h =
      let l = locked-IsWellPlaced ff tenant queue s h in
      let n = in_flight ff tenant queue clock s in
      elim (Bool-cases (bound == 0)) [
        | inl z ↦ ([], s, rw (dequeue_with_max_inflight, z) refl, none_acked s s h.provisioned refl)
        | inr z ↦ elim (Bool-cases (leb bound n)) [
          | inl full ↦ (
            [],
            locked w tenant queue s,
            limited_run ff tenant queue clock limit vt bound s h.provisioned z ∙ rw full refl,
            none_acked s (locked w tenant queue s) l.provisioned refl,
          )
          | inr room ↦
              let u = unlocked_acked (min limit (bound - n)) vt (locked w tenant queue s) l in
              (
                u.0,
                u.1,
                limited_run ff tenant queue clock limit vt bound s h.provisioned z ∙ rw room u.2,
                record {
                  all_counted = u.3.all_counted;
                  all_moved = u.3.all_moved;
                  inflight_back = u.3.inflight_back;
                  pending_kept = u.3.pending_kept;
                  dlq_kept = u.3.dlq_kept;
                },
              )
        ]
      ]

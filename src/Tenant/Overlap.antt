-- ===== src/Tenant/Overlap.antt =====
-- tenant.rs `nack` and reaper.rs `reap_inflight`, neither of which takes a lock: a pass of the reaper
-- between the read of `nack` and its write.
use rocksqueue.Base.{
  ℕ, ◌≤◌, ◌≡◌, refl, ap, ◌∙◌, true, some, [], ◌∷◌, ok, arith, Bool-cases, inl, inr, Result-cases,
}
use rocksqueue.Bytes.{Bytes, beq, starts_with}
use rocksqueue.Bytes.Order.{beq_refl}
use rocksqueue.Reaper.{is_expired, reap_inflight}
use rocksqueue.Reaper.Effect.{reap_inflight_lem}
use rocksqueue.Reaper.Loop.{reclaimed_entries}
use rocksqueue.Rocks.Table.{Table, lookup}
use rocksqueue.Rocks.Table.Prefix.{lookup-prefixed}
use rocksqueue.Rocks.World.{World, FaultFree}
use rocksqueue.Task.{Task}
use rocksqueue.Task.Keys.{queue_prefix}
use rocksqueue.Tenant.Places.{present, IsWellPlaced}
use rocksqueue.Tenant.Places.Kept.{reap-IsWellPlaced}
use rocksqueue.Tenant.Places.Tables.{present-put, present-put_all}
use rocksqueue.Tenant.Settle.{nack_value, max_attempts}
use rocksqueue.Tenant.Settle.Nacks.{to_dlq_ok, to_dlq_batch-ToDlq, exhausted_run}
use rocksqueue.Tenant.State.{Registry}
use rocksqueue.Tenant.State.View.{pending, inflight, dlq, of_queue}

module _ {w : World} (ff : FaultFree w) (tenant queue : Bytes) (clock : ℕ → ℕ) where
  present-reclaimed_entries :
      (key v : Bytes) (task : Task) (t : Table)
      → lookup key t ≡ some v
      → w.deserialize v ≡ ok task
      → is_expired (clock 0) task ≡ true
      → present key (reclaimed_entries ff tenant queue clock t) ≡ true
  unfolding lookup present reclaimed_entries
  present-reclaimed_entries key v task [] h d x = absurd (ground (arith, h))
  present-reclaimed_entries key v task ((j, y) ∷ t) h d x = elim (Bool-cases (beq j key)) [
    | inl e ↦
        let same : y ≡ v = ground (arith, h, e) in
        let read : w.deserialize y ≡ ok task = ap w.deserialize same ∙ d in
        rw (read, reclaimed_entries) (rw x (rw (present, e) refl))
    | inr e ↦
        let rest = present-reclaimed_entries key v task t (ground (arith, h, e)) d x in
        elim (Result-cases (w.deserialize y)) [
          | inr (z, f) ↦ rw (f, reclaimed_entries) rest
          | inl (u, f) ↦ elim (Bool-cases (is_expired (clock 0) u)) [
            | inl g ↦ rw (f, reclaimed_entries) (rw g (rw (present, e) rest))
            | inr g ↦ rw (f, reclaimed_entries) (rw g rest)
          ]
        ]
  ]

  -- On a database where no call fails, and from a registry where no key is in two places: if `nack`
  -- has read the record of an expired task of the queue that has used up its attempts, and a pass of the
  -- reaper over the queue runs before it writes, then the write succeeds and the key has a
  -- record both in pending and in the DLQ.
  pub nack_value-reap_inflight :
      (key v : Bytes) (task : Task) (now : ℕ) (s : Registry w)
      → IsWellPlaced ff tenant s
      → starts_with (queue_prefix queue) key ≡ true
      → lookup key (inflight ff tenant s) ≡ some v
      → w.deserialize v ≡ ok task
      → is_expired (clock 0) task ≡ true
      → max_attempts ≤ task.attempts
      → let r = nack_value w tenant key v now (reap_inflight w tenant queue clock s).1 in
        (r.0 ≡ ok tt)
        × (present key (pending ff tenant r.1) ≡ true)
        × (present key (dlq ff tenant r.1) ≡ true)
  nack_value-reap_inflight key v task now s h q e d x a =
      let reaped = (reap_inflight w tenant queue clock s).1 in
      let l = reap_inflight_lem ff tenant queue clock s h.provisioned in
      let p = (reap-IsWellPlaced ff tenant queue clock s h).provisioned in
      let moved = to_dlq_batch-ToDlq ff tenant key v reaped p in
      rw (exhausted_run ff tenant key now reaped p v task d (ground arith)) (
        to_dlq_ok ff tenant key now reaped p v,
        ap (present key) (moved.pending_kept ∙ l.3)
            ∙ present-put_all key _ (pending ff tenant s)
            ∙ rw
                (present-reclaimed_entries key v task (of_queue queue (inflight ff tenant s))
                  (lookup-prefixed (queue_prefix queue) key (inflight ff tenant s) q ∙ e) d x)
                refl,
        ap (present key) moved.in_dlq ∙ present-put key key v _ ∙ rw (beq_refl) refl,
      )

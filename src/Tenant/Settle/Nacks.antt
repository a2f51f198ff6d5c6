-- ===== src/Tenant/Settle/Nacks.antt =====
-- A task that is given back goes to the DLQ or back to its queue, branch by branch.
use rocksqueue.Base.{
  ℕ, ◌+◌, ◌%◌, ◌^◌, ◌≤◌, ◌<◌, ◌≡◌, refl, ap, ◌∙◌, true, false, Option, none, some, [], ◌∷◌, arith,
  leb, Bool-cases, Option-cases, Result-cases, inl, inr, Result, ok, err, QueueError, Exec, step_ok,
  pure,
}
use rocksqueue.Bytes.{Bytes}
use rocksqueue.Bytes.Order.{beq_refl}
use rocksqueue.Rocks.Table.{Batch, lookup, put, delete, apply, put_cf, delete_cf}
use rocksqueue.Rocks.World.{World, FaultFree, Known}
use rocksqueue.Task.{Task, poison}
use rocksqueue.Task.Keys.{encode_key}
use rocksqueue.Tenant.Names.{cf_pending, cf_inflight, cf_dlq}
use rocksqueue.Tenant.Names.Distinct.{
  inflight_pending, inflight_dlq, dlq_pending, dlq_inflight, pending_inflight, pending_dlq,
}
use rocksqueue.Tenant.State.{Registry, write_opt, next_seq}
use rocksqueue.Tenant.State.View.{
  Provisioned, pending, inflight, dlq, require_cf_ok, write_opt_ok, table-write_opt,
  commit-Provisioned,
}
use rocksqueue.Tenant.Settle.{nack, nack_value, queue_of_key, max_attempts}

module _ {w : World} (ff : FaultFree w) (tenant key : Bytes) where
  -- The inflight record moves to the DLQ with the value `v`.
  pub record ToDlq (v : Bytes) (s s' : Registry w) : Type 0 where
    pub inflight_gone : inflight ff tenant s' ≡ delete key (inflight ff tenant s)
    pub in_dlq : dlq ff tenant s' ≡ put key v (dlq ff tenant s)
    pub pending_kept : pending ff tenant s' ≡ pending ff tenant s
    pub seq_kept : s'.seq ≡ s.seq
    pub provisioned : Provisioned w tenant s'

  abbrev pub to_dlq_batch : Bytes → Batch
  to_dlq_batch v = delete_cf (cf_inflight tenant) key ∷ put_cf (cf_dlq tenant) key v ∷ []

  pub to_dlq_batch-ToDlq :
      (v : Bytes) (s : Registry w)
      → Provisioned w tenant s
      → ToDlq v s (write_opt w (to_dlq_batch v) s).1
  unfolding apply
  to_dlq_batch-ToDlq v s p =
      let k : Known (w.has_cf s.db) (to_dlq_batch v) = (p.has_inflight, (p.has_dlq, tt)) in
      let at = λ (cf : Bytes). table-write_opt ff (to_dlq_batch v) s cf k in
      record {
        inflight_gone = at (cf_inflight tenant) ∙ simp (beq_refl, dlq_inflight);
        in_dlq = at (cf_dlq tenant) ∙ simp (beq_refl, inflight_dlq);
        pending_kept = at (cf_pending tenant) ∙ simp (inflight_pending, dlq_pending);
        seq_kept = unfold write_opt in refl;
        provisioned = commit-Provisioned ff tenant (to_dlq_batch v) s p;
      }

  -- The inflight record goes back to the end of its queue with the value `v`.
  pub record Retried (queue v : Bytes) (s s' : Registry w) : Type 0 where
    pub inflight_gone : inflight ff tenant s' ≡ delete key (inflight ff tenant s)
    pub requeued : pending ff tenant s' ≡ put (encode_key queue s.seq) v (pending ff tenant s)
    pub dlq_kept : dlq ff tenant s' ≡ dlq ff tenant s
    pub seq_next : s'.seq ≡ (s.seq + 1) % 2 ^ 64
    pub provisioned : Provisioned w tenant s'

  abbrev retry_batch : (k v : Bytes) → Batch
  retry_batch k v = delete_cf (cf_inflight tenant) key ∷ put_cf (cf_pending tenant) k v ∷ []

  retry_batch-Retried :
      (queue v : Bytes) (s : Registry w)
      → Provisioned w tenant s
      → Retried queue v s (write_opt w (retry_batch (encode_key queue s.seq) v) (next_seq w s).1).1
  unfolding apply next_seq
  retry_batch-Retried queue v s p =
      let b = retry_batch (encode_key queue s.seq) v in
      let k : Known (w.has_cf s.db) b = (p.has_inflight, (p.has_pending, tt)) in
      let at = λ (cf : Bytes). table-write_opt ff b (next_seq w s).1 cf k in
      record {
        inflight_gone = at (cf_inflight tenant) ∙ simp (beq_refl, pending_inflight);
        requeued = at (cf_pending tenant) ∙ simp (beq_refl, inflight_pending);
        dlq_kept = at (cf_dlq tenant) ∙ simp (inflight_dlq, pending_dlq);
        seq_next = unfold write_opt in refl;
        provisioned = commit-Provisioned ff tenant b (next_seq w s).1 (record {
          has_pending = p.has_pending;
          has_inflight = p.has_inflight;
          has_dlq = p.has_dlq;
        });
      }

-- What giving the task `key` back does, `s` and `r` being the registry before and the outcome.
pub data Nacked {w : World} (ff : FaultFree w) (tenant key : Bytes) (now : ℕ) (s : Registry w)
    (r : Result (Unit {0}) × Registry w) : Type 0 where
  absent : lookup key (inflight ff tenant s) ≡ none → r ≡ (ok tt, s) → Nacked ff tenant key now s r
  unreadable :
      (v : Bytes) (e : QueueError)
      → lookup key (inflight ff tenant s) ≡ some v
      → w.deserialize v ≡ err e
      → r.0 ≡ ok tt
      → ToDlq ff tenant key
          (ff.encode (poison w.decimal (w.from_utf8_lossy (queue_of_key key)) v now))
          s
          r.1
      → Nacked ff tenant key now s r
  exhausted :
      (v : Bytes) (task : Task)
      → lookup key (inflight ff tenant s) ≡ some v
      → w.deserialize v ≡ ok task
      → max_attempts ≤ task.attempts
      → r.0 ≡ ok tt
      → ToDlq ff tenant key v s r.1
      → Nacked ff tenant key now s r
  requeued :
      (v : Bytes) (task : Task)
      → lookup key (inflight ff tenant s) ≡ some v
      → w.deserialize v ≡ ok task
      → task.attempts < max_attempts
      → r.0 ≡ ok tt
      → Retried ff tenant key task.queue (ff.encode (record task { deadline = 0 })) s r.1
      → Nacked ff tenant key now s r

module _ {w : World} (ff : FaultFree w) (tenant key : Bytes) (now : ℕ) (s : Registry w)
    (p : Provisioned w tenant s) where
  abbrev after_get : Option Bytes → Exec (Registry w) (Unit {0})
  after_get none = pure tt
  after_get (some value) = nack_value w tenant key value now

  nack_value_found :
      (v : Bytes)
      → lookup key (inflight ff tenant s) ≡ some v
      → nack w tenant key now s ≡ nack_value w tenant key v now s
  unfolding nack
  nack_value_found v e = step_ok _ (require_cf_ok ff (cf_pending tenant) s p.has_pending) (
      step_ok _ (require_cf_ok ff (cf_inflight tenant) s p.has_inflight) (
        step_ok _ (require_cf_ok ff (cf_dlq tenant) s p.has_dlq) (
          step_ok _
            (λ i. ((ff.get_cf_lem s.db (cf_inflight tenant) key p.has_inflight ∙ ap ok e) i, s))
            refl)))

  pub nack_absent : lookup key (inflight ff tenant s) ≡ none → nack w tenant key now s ≡ (ok tt, s)
  unfolding nack
  nack_absent e = step_ok _ (require_cf_ok ff (cf_pending tenant) s p.has_pending) (
      step_ok _ (require_cf_ok ff (cf_inflight tenant) s p.has_inflight) (
        step_ok _ (require_cf_ok ff (cf_dlq tenant) s p.has_dlq) (
          step_ok _
            (λ i. ((ff.get_cf_lem s.db (cf_inflight tenant) key p.has_inflight ∙ ap ok e) i, s))
            refl)))

  pub to_dlq_ok : (v : Bytes) → (write_opt w (to_dlq_batch ff tenant key v) s).0 ≡ ok tt
  to_dlq_ok v = write_opt_ok ff (to_dlq_batch ff tenant key v) s (p.has_inflight, (p.has_dlq, tt))

  unreadable_run :
      (v : Bytes) (e : QueueError)
      → w.deserialize v ≡ err e
      → nack_value w tenant key v now s
        ≡ write_opt w
            (to_dlq_batch ff tenant key
              (ff.encode (poison w.decimal (w.from_utf8_lossy (queue_of_key key)) v now)))
            s
  unfolding nack_value
  unreadable_run v e h =
      rw (nack_value, h)
        (step_ok _
          (λ i.
            (ff.serialize_lem (poison w.decimal (w.from_utf8_lossy (queue_of_key key)) v now) i, s))
          refl)

  pub exhausted_run :
      (v : Bytes) (task : Task)
      → w.deserialize v ≡ ok task
      → leb max_attempts task.attempts ≡ true
      → nack_value w tenant key v now s ≡ write_opt w (to_dlq_batch ff tenant key v) s
  unfolding nack_value
  exhausted_run v task h a = rw (nack_value, h) (rw (a) refl)

  next_seq_run : next_seq w s ≡ (ok s.seq, (next_seq w s).1)
  unfolding next_seq
  next_seq_run = refl

  requeued_run :
      (v : Bytes) (task : Task)
      → w.deserialize v ≡ ok task
      → leb max_attempts task.attempts ≡ false
      → nack_value w tenant key v now s
        ≡ write_opt w
            (retry_batch ff tenant key
              (encode_key task.queue s.seq)
              (ff.encode (record task { deadline = 0 })))
            (next_seq w s).1
  unfolding nack_value write_opt
  requeued_run v task h a =
      rw (nack_value, h)
        (rw (a) (
          step_ok _ next_seq_run (
            step_ok _ (λ i. (ff.serialize_lem (record task { deadline = 0 }) i, (next_seq w s).1))
              refl)))

  -- On a database where no call fails, giving a task back has one of four outcomes, `Nacked`: a key
  -- that is not inflight changes nothing; a record that cannot be decoded moves to the DLQ in a
  -- poison envelope; a task that has used up its attempts moves to the DLQ as it is; any other
  -- goes back to pending at the next sequence number, its deadline reset to 0.
  pub nack_lem : Nacked ff tenant key now s (nack w tenant key now s)
  unfolding next_seq
  nack_lem = elim (Option-cases (lookup key (inflight ff tenant s))) [
    | inl h ↦ Nacked.absent h (nack_absent h)
    | inr (v, h) ↦ elim (Result-cases (w.deserialize v)) [
      | inr (e, d) ↦
          let run = nack_value_found v h ∙ unreadable_run v e d in
          Nacked.unreadable v e h d (rw run (to_dlq_ok _))
            (rw run (to_dlq_batch-ToDlq ff tenant key _ s p))
      | inl (task, d) ↦ elim (Bool-cases (leb max_attempts task.attempts)) [
        | inl a ↦
            let run = nack_value_found v h ∙ exhausted_run v task d a in
            Nacked.exhausted v task h d (ground (arith)) (rw run (to_dlq_ok _))
              (rw run (to_dlq_batch-ToDlq ff tenant key _ s p))
        | inr a ↦
            let run = nack_value_found v h ∙ requeued_run v task d a in
            Nacked.requeued v task h d (ground (arith))
              (rw run (write_opt_ok ff _ _ (p.has_inflight, (p.has_pending, tt))))
              (rw run (retry_batch-Retried ff tenant key _ _ s p))
      ]
    ]
  ]

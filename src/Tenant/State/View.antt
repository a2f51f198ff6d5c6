-- ===== src/Tenant/State/View.antt =====
-- The contents of a tenant's queues on a database where no call fails, and what the shared steps
-- do there.
use rocksqueue.Base.{
  ℕ, ◌+◌, ◌≡◌, refl, ap, Bool, true, false, [], ◌∷◌, ◌∙◌, map, length, arith, ok, pure, ◌>>◌,
  step_ok, if◌then◌else◌,
}
use rocksqueue.Bytes.{Bytes}
use rocksqueue.Rocks.Table.{Table, prefixed, Batch, apply}
use rocksqueue.Rocks.World.{World, FaultFree, Known}
use rocksqueue.Task.Keys.{queue_prefix}
use rocksqueue.Tenant.Names.{cf_pending, cf_inflight, cf_dlq}
use rocksqueue.Tenant.State.{Registry, count_loop, count_prefix, depth, require_cf, write_opt}

-- The three column families of the tenant exist.
pub record Provisioned (w : World) (tenant : Bytes) (s : Registry w) : Type 0 where
  pub has_pending : w.has_cf s.db (cf_pending tenant) ≡ true
  pub has_inflight : w.has_cf s.db (cf_inflight tenant) ≡ true
  pub has_dlq : w.has_cf s.db (cf_dlq tenant) ≡ true

module _ {w : World} (ff : FaultFree w) (tenant : Bytes) (s : Registry w) where
  abbrev pub pending : Table
  pending = ff.table s.db (cf_pending tenant)

  abbrev pub inflight : Table
  inflight = ff.table s.db (cf_inflight tenant)

  abbrev pub dlq : Table
  dlq = ff.table s.db (cf_dlq tenant)

-- The records of one queue in a table.
abbrev pub of_queue : Bytes → Table → Table
of_queue queue t = prefixed (queue_prefix queue) t

module _ {w : World} (ff : FaultFree w) where
  count_loop_lem : (t : Table) (n : ℕ) → count_loop w (map ok t) n ≡ ok (n + length t)
  unfolding count_loop
  count_loop_lem [] n = ap ok (omega arith)
  count_loop_lem (x ∷ t) n = count_loop_lem t (n + 1) ∙ ap ok (omega arith)

  pub count_prefix_lem :
      (cf queue : Bytes) (s : Registry w)
      → w.has_cf s.db cf ≡ true
      → count_prefix w cf queue s ≡ (ok (length (of_queue queue (ff.table s.db cf))), s)
  unfolding count_prefix
  count_prefix_lem cf queue s h =
      rw (ff.scan_prefix_lem s.db cf (queue_prefix queue) h, count_loop_lem) (λ i. (ok (go i), s))
    where
      go :
          0 + length (of_queue queue (ff.table s.db cf))
          ≡ length (of_queue queue (ff.table s.db cf))
      go = omega arith

  pub require_cf_ok :
      (name : Bytes) (s : Registry w) → w.has_cf s.db name ≡ true → require_cf w name s ≡ (ok tt, s)
  unfolding require_cf
  require_cf_ok name s h = rw h

  -- The three counts, and the registry as it was.
  pub depth_lem :
      (tenant queue : Bytes) (s : Registry w)
      → Provisioned w tenant s
      → depth w tenant queue s ≡ (
        ok (
          length (of_queue queue (pending ff tenant s)),
          length (of_queue queue (inflight ff tenant s)),
          length (of_queue queue (dlq ff tenant s)),
        ),
        s,
      )
  unfolding depth
  depth_lem tenant queue s p = step_ok _ (require_cf_ok (cf_pending tenant) s p.has_pending) (
      step_ok _ (count_prefix_lem (cf_pending tenant) queue s p.has_pending) (
        step_ok _ (require_cf_ok (cf_inflight tenant) s p.has_inflight) (
          step_ok _ (count_prefix_lem (cf_inflight tenant) queue s p.has_inflight) (
            step_ok _ (require_cf_ok (cf_dlq tenant) s p.has_dlq)
              (step_ok _ (count_prefix_lem (cf_dlq tenant) queue s p.has_dlq) refl)))))

  pub write_opt_ok :
      (b : Batch) (s : Registry w) → Known (w.has_cf s.db) b → (write_opt w b s).0 ≡ ok tt
  unfolding write_opt
  write_opt_ok b s k = ff.write_ok s.db b k

  pub write_run :
      (b : Batch) (s : Registry w)
      → Known (w.has_cf s.db) b
      → write_opt w b s ≡ (ok tt, (write_opt w b s).1)
  write_run b s k i = (write_opt_ok b s k i, (write_opt w b s).1)

  pub table-write_opt :
      (b : Batch) (s : Registry w) (cf : Bytes)
      → Known (w.has_cf s.db) b
      → ff.table (write_opt w b s).1.db cf ≡ apply cf b (ff.table s.db cf)
  unfolding write_opt
  table-write_opt b s cf k = ff.table-write s.db b cf k

  -- What a method leaves that writes its batch unless the batch is empty.
  abbrev pub commit : Batch → Registry w → Registry w
  commit [] s = s
  commit (op ∷ b) s = (write_opt w (op ∷ b) s).1

  abbrev pub nonempty : Batch → Bool
  nonempty [] = false
  nonempty (op ∷ b) = true

  pub commit_if {ℓ} :
      {A : Type ℓ} (c : Bool) (b : Batch) (a : A) (s : Registry w)
      → Known (w.has_cf s.db) b
      → c ≡ nonempty b
      → (if c then (do write_opt w b; pure a) else pure a) s ≡ (ok a, commit b s)
  commit_if c [] a s k e = rw e
  commit_if c (op ∷ b) a s k e = rw e (step_ok (λ _. pure a) (write_run (op ∷ b) s k) refl)

  pub commit_if_unit :
      (c : Bool) (b : Batch) (s : Registry w)
      → Known (w.has_cf s.db) b
      → c ≡ nonempty b
      → (if c then write_opt w b else pure tt) s ≡ (ok tt, commit b s)
  commit_if_unit c [] s k e = rw e
  commit_if_unit c (op ∷ b) s k e = rw e (write_run (op ∷ b) s k)

  pub table-commit :
      (b : Batch) (s : Registry w) (cf : Bytes)
      → Known (w.has_cf s.db) b
      → ff.table (commit b s).db cf ≡ apply cf b (ff.table s.db cf)
  unfolding apply
  table-commit [] s cf k = refl
  table-commit (op ∷ b) s cf k = unfold apply in table-write_opt (op ∷ b) s cf k

  pub commit-Provisioned :
      (tenant : Bytes) (b : Batch) (s : Registry w)
      → Provisioned w tenant s
      → Provisioned w tenant (commit b s)
  commit-Provisioned tenant [] s p = p
  commit-Provisioned tenant (op ∷ b) s p =
      unfold write_opt in
      record {
        has_pending = ff.has_cf-write s.db (op ∷ b) _ ∙ p.has_pending;
        has_inflight = ff.has_cf-write s.db (op ∷ b) _ ∙ p.has_inflight;
        has_dlq = ff.has_cf-write s.db (op ∷ b) _ ∙ p.has_dlq;
      }

  pub commit-ack_locks : (b : Batch) (s : Registry w) → (commit b s).ack_locks ≡ s.ack_locks
  commit-ack_locks [] s = refl
  commit-ack_locks (op ∷ b) s = unfold write_opt in refl

  pub commit-seq : (b : Batch) (s : Registry w) → (commit b s).seq ≡ s.seq
  commit-seq [] s = refl
  commit-seq (op ∷ b) s = unfold write_opt in refl

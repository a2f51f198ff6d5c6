-- ===== src/Reaper/Effect.antt =====
-- What one pass of the reaper over a queue moves, on a database where no call fails.
use rocksqueue.Base.{
  Result-cases, inl, inr, ℕ, suc, ◌+◌, ◌≡◌, refl, ap, ◌∙◌, [], ◌∷◌, length, arith, ok, Bool-cases,
  All, step_ok, ltb, ◌||◌, Ordering,
}
use rocksqueue.Bytes.{Bytes, compare_bytes}
use rocksqueue.Bytes.Order.{beq_refl}
use rocksqueue.Rocks.Table.{Table, apply, delete_all, put_all, IsSorted, Above}
use rocksqueue.Rocks.Table.Prefix.{
  prefixed-IsSorted, delete_first, prefixed-delete_all, prefixed-All, delete_all_above,
}
use rocksqueue.Rocks.World.{World, FaultFree, Known}
use rocksqueue.Task.Keys.{queue_prefix}
use rocksqueue.Tenant.Names.{cf_pending, cf_inflight, cf_dlq}
use rocksqueue.Tenant.Names.Distinct.{
  pending_inflight, pending_dlq, inflight_pending, inflight_dlq, dlq_pending, dlq_inflight,
}
use rocksqueue.Tenant.State.{Registry}
use rocksqueue.Tenant.State.View.{
  Provisioned, pending, inflight, dlq, of_queue, require_cf_ok, commit, commit_if_unit, nonempty,
  table-commit,
}
use rocksqueue.Reaper.{no_reaped, is_expired, reap_loop, reap_inflight}
use rocksqueue.Reaper.Loop.{
  taken, left, reclaimed_entries, poisoned_entries, reap_moves, reaped, reap_loop_lem,
}

module _ {w : World} (ff : FaultFree w) (tenant queue : Bytes) (clock : ℕ → ℕ) where
  apply_inflight :
      (i : ℕ) (t u : Table)
      → apply (cf_inflight tenant) (reap_moves ff tenant queue clock i t) u
        ≡ delete_all (taken w (clock 0) t) u
  unfolding apply reap_moves delete_all taken
  apply_inflight i [] u = refl
  apply_inflight i ((k, v) ∷ t) u = elim (Result-cases (w.deserialize v)) [
    | inr (e, d) ↦ rw (d, reap_moves, taken, beq_refl, dlq_inflight) (apply_inflight (suc i) t _)
    | inl (task, d) ↦ elim (Bool-cases (is_expired (clock 0) task)) [
      | inl x ↦
          rw (d, reap_moves, taken)
            (rw x (rw (apply, beq_refl, pending_inflight) (apply_inflight i t _)))
      | inr x ↦ rw (d, reap_moves, taken) (rw x (apply_inflight i t u))
    ]
  ]

  apply_pending :
      (i : ℕ) (t u : Table)
      → apply (cf_pending tenant) (reap_moves ff tenant queue clock i t) u
        ≡ put_all (reclaimed_entries ff tenant queue clock t) u
  unfolding apply reap_moves put_all reclaimed_entries
  apply_pending i [] u = refl
  apply_pending i ((k, v) ∷ t) u = elim (Result-cases (w.deserialize v)) [
    | inr (e, d) ↦
        rw (d, reap_moves, reclaimed_entries, inflight_pending, dlq_pending)
          (apply_pending (suc i) t u)
    | inl (task, d) ↦ elim (Bool-cases (is_expired (clock 0) task)) [
      | inl x ↦
          rw (d, reap_moves, reclaimed_entries)
            (rw x (rw (apply, beq_refl, inflight_pending) (apply_pending i t _)))
      | inr x ↦ rw (d, reap_moves, reclaimed_entries) (rw x (apply_pending i t u))
    ]
  ]

  apply_dlq :
      (i : ℕ) (t u : Table)
      → apply (cf_dlq tenant) (reap_moves ff tenant queue clock i t) u
        ≡ put_all (poisoned_entries ff tenant queue clock i t) u
  unfolding apply reap_moves put_all poisoned_entries
  apply_dlq i [] u = refl
  apply_dlq i ((k, v) ∷ t) u = elim (Result-cases (w.deserialize v)) [
    | inr (e, d) ↦
        rw (d, reap_moves, poisoned_entries, beq_refl, inflight_dlq) (apply_dlq (suc i) t _)
    | inl (task, d) ↦ elim (Bool-cases (is_expired (clock 0) task)) [
      | inl x ↦
          rw (d, reap_moves, poisoned_entries)
            (rw x (rw (apply, inflight_dlq, pending_dlq) (apply_dlq i t u)))
      | inr x ↦ rw (d, reap_moves, poisoned_entries) (rw x (apply_dlq i t u))
    ]
  ]

  reap_moves-Known :
      (s : Registry w) (i : ℕ) (t : Table)
      → Provisioned w tenant s
      → Known (w.has_cf s.db) (reap_moves ff tenant queue clock i t)
  unfolding reap_moves
  reap_moves-Known s i [] p = tt
  reap_moves-Known s i ((k, v) ∷ t) p = elim (Result-cases (w.deserialize v)) [
    | inr (e, d) ↦ rw (d, reap_moves) (p.has_inflight, (p.has_dlq, reap_moves-Known s (suc i) t p))
    | inl (task, d) ↦ elim (Bool-cases (is_expired (clock 0) task)) [
      | inl x ↦
          rw (d, reap_moves) (rw x (p.has_inflight, (p.has_pending, reap_moves-Known s i t p)))
      | inr x ↦ rw (d, reap_moves) (rw x (reap_moves-Known s i t p))
    ]
  ]

  wrote :
      (i : ℕ) (t : Table)
      → (ltb 0 (0 + length (reclaimed_entries ff tenant queue clock t))
          || ltb 0 (0 + length (poisoned_entries ff tenant queue clock i t)))
        ≡ nonempty ff (reap_moves ff tenant queue clock i t)
  unfolding reap_moves reclaimed_entries poisoned_entries
  wrote i [] = refl
  wrote i ((k, v) ∷ t) = elim (Result-cases (w.deserialize v)) [
    | inr (e, d) ↦ rw (d, reap_moves, reclaimed_entries, poisoned_entries) (ground arith)
    | inl (task, d) ↦ elim (Bool-cases (is_expired (clock 0) task)) [
      | inl x ↦ rw (d, reap_moves, reclaimed_entries, poisoned_entries) (rw x (ground arith))
      | inr x ↦ rw (d, reap_moves, reclaimed_entries, poisoned_entries) (rw x (wrote i t))
    ]
  ]

  pub reap_run :
      (s : Registry w)
      → Provisioned w tenant s
      → reap_inflight w tenant queue clock s ≡ (
        ok tt,
        commit ff (reap_moves ff tenant queue clock 0 (of_queue queue (inflight ff tenant s))) s,
      )
  unfolding reap_inflight
  reap_run s p = step_ok _ (require_cf_ok ff (cf_inflight tenant) s p.has_inflight) (
      step_ok _ (require_cf_ok ff (cf_pending tenant) s p.has_pending) (
        step_ok _ (require_cf_ok ff (cf_dlq tenant) s p.has_dlq) (
          step_ok _ (λ i. (loop i, s))
            (unfold reaped in commit_if_unit ff _ _ s (reap_moves-Known s 0 _ p) (wrote 0 _)))))
    where
      loop :
          reap_loop w tenant queue clock
            (w.scan_from s.db (cf_inflight tenant) (queue_prefix queue))
            no_reaped
          ≡ ok (reaped ff tenant queue clock no_reaped (of_queue queue (inflight ff tenant s)))
      loop =
          let r = ff.scan_from_lem s.db (cf_inflight tenant) (queue_prefix queue) p.has_inflight in
          rw r.1 (reap_loop_lem ff tenant queue clock _ r.0 no_reaped (prefixed-All _ _) r.2)

  Above-taken :
      (a : Bytes) (t : Table)
      → Above a t
      → All (λ j. compare_bytes a j ≡ Ordering.lt) (taken w (clock 0) t)
  unfolding taken
  Above-taken a [] u = tt
  Above-taken a ((k, v) ∷ t) u = elim (Result-cases (w.deserialize v)) [
    | inr (e, d) ↦ rw (d, taken) (u.0, Above-taken a t u.1)
    | inl (task, d) ↦ elim (Bool-cases (is_expired (clock 0) task)) [
      | inl x ↦ rw (d, taken) (rw x (u.0, Above-taken a t u.1))
      | inr x ↦ rw (d, taken) (rw x (Above-taken a t u.1))
    ]
  ]

  delete_all-taken :
      (t : Table) → IsSorted t → delete_all (taken w (clock 0) t) t ≡ left w (clock 0) t
  unfolding delete_all taken left
  delete_all-taken [] h = refl
  delete_all-taken ((k, v) ∷ t) h =
      let ks = taken w (clock 0) t in
      let gone = ap (delete_all ks) (delete_first k v t h) ∙ delete_all-taken t h.1 in
      let kept =
        delete_all_above k v ks t (Above-taken k t h.0)
        ∙ ap (◌∷◌ (k, v)) (delete_all-taken t h.1) in
      elim (Result-cases (w.deserialize v)) [
        | inr (e, d) ↦ rw (d, taken, left) gone
        | inl (task, d) ↦ elim (Bool-cases (is_expired (clock 0) task)) [
          | inl x ↦ rw (d, taken, left) (rw x gone)
          | inr x ↦ rw (d, taken, left) (rw x kept)
        ]
      ]

  -- On a database where no call fails, a pass of the reaper over a queue succeeds. Afterwards the
  -- queue's inflight records are those that parse and have not expired, in their order; every
  -- expired task is pending again under its key with its deadline reset to 0; every record that
  -- does not parse is in the DLQ under its key, in an envelope; and no other record is changed.
  pub reap_inflight_lem :
      (s : Registry w)
      → Provisioned w tenant s
      → let t = of_queue queue (inflight ff tenant s) in
        let r = reap_inflight w tenant queue clock s in
        (r.0 ≡ ok tt)
        × (of_queue queue (inflight ff tenant r.1) ≡ left w (clock 0) t)
        × (inflight ff tenant r.1 ≡ delete_all (taken w (clock 0) t) (inflight ff tenant s))
        × (pending ff tenant r.1
            ≡ put_all (reclaimed_entries ff tenant queue clock t) (pending ff tenant s))
        × (dlq ff tenant r.1
            ≡ put_all (poisoned_entries ff tenant queue clock 0 t) (dlq ff tenant s))
  reap_inflight_lem s p =
      let t = of_queue queue (inflight ff tenant s) in
      let m = reap_moves ff tenant queue clock 0 t in
      let k = reap_moves-Known s 0 t p in
      let gone : inflight ff tenant (commit ff m s)
          ≡ delete_all (taken w (clock 0) t) (inflight ff tenant s) =
        table-commit ff m s (cf_inflight tenant) k ∙ apply_inflight 0 t _ in
      let sorted =
        prefixed-IsSorted (queue_prefix queue) (inflight ff tenant s) (ff.table_sorted s.db _) in
      rw (reap_run s p) (
        refl,
        ap (of_queue queue) gone
            ∙ prefixed-delete_all (queue_prefix queue) _ _
            ∙ delete_all-taken t sorted,
        gone,
        table-commit ff m s (cf_pending tenant) k ∙ apply_pending 0 t _,
        table-commit ff m s (cf_dlq tenant) k ∙ apply_dlq 0 t _,
      )

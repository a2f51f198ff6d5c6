-- ===== src/Tenant/Dlq/Purge.antt =====
-- Purging empties the DLQ, and replaying moves it to pending.
use rocksqueue.Base.{
  suc, ◌+◌, ◌≡◌, refl, ap, ◌∙◌, List, [], ◌∷◌, ◌++◌, map, length, length-append, append_assoc,
  append-nil, arith, ok, step_ok,
}
use rocksqueue.Bytes.{Bytes}
use rocksqueue.Rocks.Table.{Table, keys, IsSorted, delete_all}
use rocksqueue.Rocks.Table.Prefix.{delete_first}
use rocksqueue.Rocks.World.{World, FaultFree}
use rocksqueue.Tenant.Names.{cf_pending, cf_inflight, cf_dlq}
use rocksqueue.Tenant.Names.Distinct.{dlq_pending, dlq_inflight}
use rocksqueue.Tenant.State.{Registry}
use rocksqueue.Tenant.State.View.{Provisioned, pending, inflight, dlq, require_cf_ok, commit}
use rocksqueue.Tenant.State.Deletions.{
  deletions, deletions-snoc, commit-deletions, table-deletions, table-deletions_other,
}
use rocksqueue.Tenant.Dlq.{purge_loop, purge_dlq}

pub delete_all-keys : (t : Table) → IsSorted t → delete_all (keys t) t ≡ []
unfolding delete_all
delete_all-keys [] h = refl
delete_all-keys ((k, v) ∷ t) h =
    ap (delete_all (keys t)) (delete_first k v t h) ∙ delete_all-keys t h.1

pub length-keys : (t : Table) → length (keys t) ≡ length t
length-keys [] = refl
length-keys (e ∷ t) = ap suc (length-keys t)

module _ {w : World} (ff : FaultFree w) (tenant : Bytes) where
  purge_loop_lem :
      (cf : Bytes) (t : Table) (ks : List Bytes)
      → purge_loop w cf (map ok t) (deletions cf ks) (length ks)
        ≡ ok (deletions cf (ks ++ keys t), length (ks ++ keys t))
  unfolding purge_loop
  purge_loop_lem cf [] ks = rw (append-nil ks) refl
  purge_loop_lem cf ((k, v) ∷ t) ks =
      rw (purge_loop, deletions-snoc cf k ks, length-snoc)
        (purge_loop_lem cf t (ks ++ k ∷ [])
          ∙ ap (λ j. ok (deletions cf j, length j)) (append_assoc ks (k ∷ []) _))
    where
      length-snoc : length ks + 1 ≡ length (ks ++ k ∷ [])
      length-snoc = omega (arith, length-append ks (k ∷ []))

  pub purge_run :
      (s : Registry w)
      → Provisioned w tenant s
      → let ks = keys (dlq ff tenant s) in
        purge_dlq w tenant s ≡ (ok (length ks), commit ff (deletions (cf_dlq tenant) ks) s)
  unfolding purge_dlq deletions
  purge_run s p =
      let cf = cf_dlq tenant in
      let t = dlq ff tenant s in
      let scanned =
        ap (λ l. purge_loop w cf l [] 0) (ff.scan_all_lem s.db cf p.has_dlq)
        ∙ purge_loop_lem cf t [] in
      step_ok _ (require_cf_ok ff cf s p.has_dlq) (
        step_ok _ (λ i. (scanned i, s))
          (commit-deletions ff cf (keys t) s p.has_dlq (length (keys t))))

  -- On a database where no call fails, a purge of a tenant's DLQ succeeds with the number of
  -- its records, leaves it empty, and leaves pending and inflight as they were.
  pub purge_dlq_lem :
      (s : Registry w)
      → Provisioned w tenant s
      → let r = purge_dlq w tenant s in
        (r.0 ≡ ok (length (dlq ff tenant s)))
        × (dlq ff tenant r.1 ≡ [])
        × (pending ff tenant r.1 ≡ pending ff tenant s)
        × (inflight ff tenant r.1 ≡ inflight ff tenant s)
  purge_dlq_lem s p =
      let cf = cf_dlq tenant in
      let t = dlq ff tenant s in
      let other = table-deletions_other ff cf (keys t) s p.has_dlq in
      rw (purge_run s p) (
        ap ok (length-keys t),
        table-deletions ff cf (keys t) s p.has_dlq ∙ delete_all-keys t (ff.table_sorted s.db cf),
        other (cf_pending tenant) (dlq_pending tenant tenant),
        other (cf_inflight tenant) (dlq_inflight tenant tenant),
      )

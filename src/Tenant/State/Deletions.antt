-- ===== src/Tenant/State/Deletions.antt =====
-- Batches that only delete from one column family: those of ack, evict, purge.
use rocksqueue.Base.{
  ◌≡◌, refl, ap, ◌∙◌, Bool, true, false, List, [], ◌∷◌, ◌++◌, length, arith, ltb, ok, if◌then◌else◌,
  pure, ◌>>◌,
}
use rocksqueue.Bytes.{Bytes, beq}
use rocksqueue.Bytes.Order.{beq_refl}
use rocksqueue.Rocks.Table.{Table, Batch, delete_cf, apply, delete, delete_all}
use rocksqueue.Rocks.World.{World, FaultFree, Known}
use rocksqueue.Tenant.State.{Registry, write_opt}
use rocksqueue.Tenant.State.View.{commit, nonempty, commit_if, table-commit}

unfoldable pub deletions : Bytes → List Bytes → Batch
deletions cf [] = []
deletions cf (k ∷ ks) = delete_cf cf k ∷ deletions cf ks

pub deletions-snoc :
    (cf k : Bytes) (ks : List Bytes)
    → deletions cf ks ++ delete_cf cf k ∷ [] ≡ deletions cf (ks ++ k ∷ [])
unfolding deletions
deletions-snoc cf k [] = refl
deletions-snoc cf k (j ∷ ks) = ap (◌∷◌ (delete_cf cf j)) (deletions-snoc cf k ks)

pub delete_all-snoc :
    (k : Bytes) (ks : List Bytes) (t : Table)
    → delete_all (ks ++ k ∷ []) t ≡ delete k (delete_all ks t)
unfolding delete_all
delete_all-snoc k [] t = refl
delete_all-snoc k (j ∷ ks) t = delete_all-snoc k ks (delete j t)

apply-deletions :
    (cf : Bytes) (ks : List Bytes) (t : Table) → apply cf (deletions cf ks) t ≡ delete_all ks t
unfolding deletions apply delete_all
apply-deletions cf [] t = refl
apply-deletions cf (k ∷ ks) t = rw (apply, beq_refl) (apply-deletions cf ks (delete k t))

apply-deletions_other :
    (cf other : Bytes) (ks : List Bytes) (t : Table)
    → beq cf other ≡ false
    → apply other (deletions cf ks) t ≡ t
unfolding deletions apply
apply-deletions_other cf other [] t h = refl
apply-deletions_other cf other (k ∷ ks) t h = rw (apply, h) (apply-deletions_other cf other ks t h)

pub deletions-Known :
    (has : Bytes → Bool) (cf : Bytes) (ks : List Bytes)
    → has cf ≡ true
    → Known has (deletions cf ks)
unfolding deletions
deletions-Known has cf [] h = tt
deletions-Known has cf (k ∷ ks) h = (h, deletions-Known has cf ks h)

module _ {w : World} (ff : FaultFree w) (cf : Bytes) (ks : List Bytes) (s : Registry w)
    (has : w.has_cf s.db cf ≡ true) where
  pub nonempty-deletions : ltb 0 (length ks) ≡ nonempty ff (deletions cf ks)
  nonempty-deletions = go ks
    where
      go : (ks : List Bytes) → ltb 0 (length ks) ≡ nonempty ff (deletions cf ks)
      go [] = unfold deletions in refl
      go (k ∷ ks) = unfold deletions in ground arith

  pub commit-deletions {ℓ} :
      {A : Type ℓ} (a : A)
      → (if ltb 0 (length ks) then (do write_opt w (deletions cf ks); pure a) else pure a) s
        ≡ (ok a, commit ff (deletions cf ks) s)
  commit-deletions a =
      commit_if ff _ (deletions cf ks) a s (deletions-Known (w.has_cf s.db) cf ks has)
        nonempty-deletions

  pub table-deletions :
      ff.table (commit ff (deletions cf ks) s).db cf ≡ delete_all ks (ff.table s.db cf)
  table-deletions =
      table-commit ff (deletions cf ks) s cf (deletions-Known (w.has_cf s.db) cf ks has)
      ∙ apply-deletions cf ks _

  pub table-deletions_other :
      (other : Bytes)
      → beq cf other ≡ false
      → ff.table (commit ff (deletions cf ks) s).db other ≡ ff.table s.db other
  table-deletions_other other h =
      table-commit ff (deletions cf ks) s other (deletions-Known (w.has_cf s.db) cf ks has)
      ∙ apply-deletions_other cf other ks _ h

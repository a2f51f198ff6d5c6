-- ===== src/Tenant/Places/Kept.antt =====
-- Each operation on a tenant's queues keeps its records in their places.
use rocksqueue.Base.{ℕ, ◌≡◌, sym, ap, ◌∙◌, Bool, true, List, length, arith}
use rocksqueue.Bytes.{Bytes}
use rocksqueue.Rocks.Table.{IsSorted, Table, keys, put_all, delete_all}
use rocksqueue.Rocks.Table.Prefix.{prefixed-IsSorted}
use rocksqueue.Rocks.World.{World, FaultFree}
use rocksqueue.Task.Keys.{queue_prefix}
use rocksqueue.Tenant.State.{Registry}
use rocksqueue.Tenant.State.View.{
  Provisioned, pending, inflight, dlq, of_queue, commit-seq, commit-Provisioned,
}
use rocksqueue.Tenant.Dequeue.{dequeue_batch_unlocked, saturating_add}
use rocksqueue.Tenant.Dequeue.Loop.{moves}
use rocksqueue.Tenant.Dequeue.Effect.{dequeue_batch_unlocked_lem, dequeue_total, front}
use rocksqueue.Reaper.{reap_inflight}
use rocksqueue.Reaper.Loop.{taken, reap_moves}
use rocksqueue.Reaper.Effect.{reap_inflight_lem, reap_run}
use rocksqueue.Tenant.Settle.{elem}
use rocksqueue.Tenant.Places.{present, numbered, single, IsWellPlaced}
use rocksqueue.Tenant.Places.Tables.{
  present-delete_all, present-put_all, elem-keys, present-prefixed, present-take, take-IsSorted,
}
use rocksqueue.Tenant.Places.Moves.{front-Parted, taken-Parted, elem-taken, Parted}

-- Records move from `p` to `i` and `d`, each key to one of them.
moved :
    (k : Bytes) (ks : List Bytes) (p i d x y : Table) (b : Bool)
    → Parted (elem k ks) (present k x) (present k y)
    → (elem k ks ≡ true → present k p ≡ true)
    → single (present k p) (present k i) (present k d) b ≡ true
    → single (present k (delete_all ks p)) (present k (put_all x i)) (present k (put_all y d)) b
      ≡ true
moved k ks p i d x y b h sub s =
    ground (arith, present-delete_all k ks p, present-put_all k x i, present-put_all k y d, sub)

-- The reaper's records move from `i` to `p` and `d`.
moved_back :
    (k : Bytes) (ks : List Bytes) (p i d x y : Table) (b : Bool)
    → Parted (elem k ks) (present k x) (present k y)
    → (elem k ks ≡ true → present k i ≡ true)
    → single (present k p) (present k i) (present k d) b ≡ true
    → single (present k (put_all x p)) (present k (delete_all ks i)) (present k (put_all y d)) b
      ≡ true
moved_back k ks p i d x y b h sub s =
    ground (arith, present-delete_all k ks i, present-put_all k x p, present-put_all k y d, sub)

module _ {w : World} (ff : FaultFree w) (tenant : Bytes) where
  -- A registry whose tables and counter are given by equations.
  pub well_placed :
      (s : Registry w) (p i d : Table) (n : ℕ)
      → Provisioned w tenant s
      → pending ff tenant s ≡ p
      → inflight ff tenant s ≡ i
      → dlq ff tenant s ≡ d
      → s.seq ≡ n
      → ((k : Bytes) → single (present k p) (present k i) (present k d) (numbered n k) ≡ true)
      → IsWellPlaced ff tenant s
  well_placed s p i d n prov a b c e h = record {
    provisioned = prov;
    placed = λ k. rw (a, b, c, e) (h k);
  }

module _ {w : World} (ff : FaultFree w) (tenant queue : Bytes) (clock : ℕ → ℕ) where
  pub dequeue-IsWellPlaced :
      (limit visibility_timeout_ms : ℕ) (s : Registry w)
      → IsWellPlaced ff tenant s
      → IsWellPlaced ff tenant
          (dequeue_batch_unlocked w tenant queue clock limit visibility_timeout_ms s).1
  dequeue-IsWellPlaced limit vt s h =
      let deadline = saturating_add (clock 0) vt in
      let c = front ff tenant queue clock limit s in
      let q = of_queue queue (pending ff tenant s) in
      let m = moves ff tenant queue clock deadline 0 c in
      let e = dequeue_batch_unlocked_lem ff tenant queue clock limit vt s h.provisioned in
      let run = dequeue_total ff tenant queue clock limit vt s h.provisioned in
      let sorted : IsSorted c = rw e.1 (
        take-IsSorted (length c) q (
          prefixed-IsSorted (queue_prefix queue) (pending ff tenant s) (ff.table_sorted s.db _))) in
      let within = λ (k : Bytes) (x : present k c ≡ true).
        present-prefixed (queue_prefix queue) k (pending ff tenant s)
          (present-take (length c) k q (ap (present k) (sym e.1) ∙ x)) in
      well_placed ff tenant _ _ _ _ _ (rw run (commit-Provisioned ff tenant m s h.provisioned)) e.3
        e.4 e.5 (ap (λ r. r.1.seq) run ∙ commit-seq ff m s)
        (λ k.
          moved k (keys c) _ _ _ _ _ _
            (rw (elem-keys k c) (front-Parted ff tenant queue clock k deadline 0 c sorted))
            (λ x. within k (sym (elem-keys k c) ∙ x)) (h.placed k))

  pub reap-IsWellPlaced :
      (s : Registry w)
      → IsWellPlaced ff tenant s
      → IsWellPlaced ff tenant (reap_inflight w tenant queue clock s).1
  reap-IsWellPlaced s h =
      let t = of_queue queue (inflight ff tenant s) in
      let m = reap_moves ff tenant queue clock 0 t in
      let e = reap_inflight_lem ff tenant queue clock s h.provisioned in
      let run = reap_run ff tenant queue clock s h.provisioned in
      let sorted =
        prefixed-IsSorted (queue_prefix queue) (inflight ff tenant s) (ff.table_sorted s.db _) in
      let within = λ (k : Bytes) (x : elem k (taken w (clock 0) t) ≡ true).
        present-prefixed (queue_prefix queue) k (inflight ff tenant s)
          (elem-taken ff tenant queue clock k t x) in
      well_placed ff tenant _ _ _ _ _ (rw run (commit-Provisioned ff tenant m s h.provisioned)) e.3
        e.2 e.4 (ap (λ r. r.1.seq) run ∙ commit-seq ff m s)
        (λ k.
          moved_back k (taken w (clock 0) t) _ _ _ _ _ _
            (taken-Parted ff tenant queue clock k 0 t sorted) (within k) (h.placed k))

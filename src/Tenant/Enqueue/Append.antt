-- ===== src/Tenant/Enqueue/Append.antt =====
-- What an enqueue writes once its quota is met: new records at the end of the queue.
use rocksqueue.Base.{
  ℕ, zero, suc, ◌+◌, ◌%◌, ◌^◌, ◌<◌, ◌≡◌, refl, sym, ap, ◌∙◌, Bool, true, false, List, [], ◌∷◌, ◌++◌,
  map, length, arith, ok, step_ok, append-nil, append_assoc, Ordering,
}
use rocksqueue.Bytes.{Bytes, beq, compare_bytes}
use rocksqueue.Bytes.Order.{beq_refl, compare_trans}
use rocksqueue.Rocks.Table.{Table, Batch, put_cf, apply, put, put_all, IsSorted, Below, prefixed}
use rocksqueue.Rocks.Table.Lookup.{put-IsSorted}
use rocksqueue.Rocks.Table.Prefix.{put_last, prefixed-put}
use rocksqueue.Rocks.World.{World, FaultFree, Known}
use rocksqueue.Task.Keys.{encode_key, queue_prefix}
use rocksqueue.Task.Keys.Laws.{compare-encode_key, starts_with_self}
use rocksqueue.Tenant.Names.{cf_pending, cf_inflight, cf_dlq}
use rocksqueue.Tenant.Names.Distinct.{pending_inflight, pending_dlq}
use rocksqueue.Tenant.State.{Registry, write_opt, next_seq, queue_lock}
use rocksqueue.Tenant.State.View.{
  Provisioned, pending, inflight, dlq, require_cf_ok, write_run, table-write_opt,
}
use rocksqueue.Policy.{NamespacePolicy}
use rocksqueue.Tenant.Enqueue.{Times, new_task, enqueue_loop, enforce_quota, enqueue_batch_sync}

-- The counter after `n` more tasks.
unfoldable pub advance : ℕ → ℕ → ℕ
advance zero seq = seq
advance (suc n) seq = advance n ((seq + 1) % 2 ^ 64)

-- Every key of the queue lies below the key of the next sequence number.
abbrev pub IsFresh : (queue : Bytes) (seq : ℕ) → Table → Type 0
IsFresh queue seq t = Below (encode_key queue seq) (prefixed (queue_prefix queue) t)

module _ {w : World} (ff : FaultFree w) (tenant queue : Bytes) (now : ℕ) where
  -- The records of new tasks, numbered from `seq` on.
  unfoldable pub new_entries : ℕ → List (Bytes × Bytes) → Table
  new_entries seq [] = []
  new_entries seq ((id, payload) ∷ ps) =
      (encode_key queue seq, ff.encode (new_task w queue id payload now))
      ∷ new_entries ((seq + 1) % 2 ^ 64) ps

  pub length-new_entries :
      (seq : ℕ) (ps : List (Bytes × Bytes)) → length (new_entries seq ps) ≡ length ps
  unfolding new_entries
  length-new_entries seq [] = refl
  length-new_entries seq (p ∷ ps) = ap suc (length-new_entries ((seq + 1) % 2 ^ 64) ps)

  puts : Table → Batch
  puts [] = []
  puts ((k, v) ∷ es) = put_cf (cf_pending tenant) k v ∷ puts es

  after_loop : ℕ → Registry w → Registry w
  after_loop n s = record s { seq = advance n s.seq }

  enqueue_loop_lem :
      (ps : List (Bytes × Bytes)) (batch : Batch) (ids : List Bytes) (s : Registry w)
      → enqueue_loop w tenant queue now ps batch ids s ≡ (
        ok (batch ++ puts (new_entries s.seq ps), ids ++ map (λ p. p.0) ps),
        after_loop (length ps) s,
      )
  unfolding enqueue_loop puts new_entries after_loop advance next_seq
  enqueue_loop_lem [] batch ids s = rw (append-nil batch, append-nil ids)
  enqueue_loop_lem ((id, payload) ∷ ps) batch ids s =
      rw ff.serialize_lem
        (enqueue_loop_lem ps _ _ (record s { seq = (s.seq + 1) % 2 ^ 64 }) ∙ simp append_assoc)

  apply-puts : (es t : Table) → apply (cf_pending tenant) (puts es) t ≡ put_all es t
  unfolding apply puts put_all
  apply-puts [] t = refl
  apply-puts ((k, v) ∷ es) t = rw (apply, beq_refl) (apply-puts es (put k v t))

  apply-puts_other :
      (cf : Bytes) (es t : Table) → beq (cf_pending tenant) cf ≡ false → apply cf (puts es) t ≡ t
  unfolding apply puts
  apply-puts_other cf [] t h = refl
  apply-puts_other cf ((k, v) ∷ es) t h = rw (apply, h) (apply-puts_other cf es t h)

  puts-Known :
      (has : Bytes → Bool) (es : Table) → has (cf_pending tenant) ≡ true → Known has (puts es)
  unfolding puts
  puts-Known has [] h = tt
  puts-Known has ((k, v) ∷ es) h = (h, puts-Known has es h)

  Below-append_key :
      (k j v : Bytes) (t : Table)
      → compare_bytes k j ≡ Ordering.lt
      → Below k t
      → Below j (t ++ (k, v) ∷ [])
  Below-append_key k j v [] h b = (h, tt)
  Below-append_key k j v ((i, x) ∷ t) h b =
      (compare_trans i k j b.0 h, Below-append_key k j v t h b.1)

  -- Records with fresh keys go to the end of the queue, in the order in which they came.
  pub put_all-new_entries :
      (ps : List (Bytes × Bytes)) (seq : ℕ) (t : Table)
      → IsSorted t
      → IsFresh queue seq t
      → seq + length ps < 2 ^ 64
      → prefixed (queue_prefix queue) (put_all (new_entries seq ps) t)
        ≡ prefixed (queue_prefix queue) t ++ new_entries seq ps
  unfolding put_all new_entries
  put_all-new_entries [] seq t h f b = sym (append-nil _)
  put_all-new_entries ((id, payload) ∷ ps) seq t h f b =
      let v = ff.encode (new_task w queue id payload now) in
      let k = encode_key queue seq in
      let next : (seq + 1) % 2 ^ 64 ≡ seq + 1 = omega arith in
      let q = prefixed (queue_prefix queue) t in
      let put_here : prefixed (queue_prefix queue) (put k v t) ≡ q ++ (k, v) ∷ [] =
        prefixed-put (queue_prefix queue) k v t h (starts_with_self queue seq) ∙ put_last k v q f in
      let fresh : Below (encode_key queue ((seq + 1) % 2 ^ 64)) (q ++ (k, v) ∷ []) = rw next (
        Below-append_key k (encode_key queue (seq + 1)) v q
          (compare-encode_key queue seq (seq + 1) (omega arith) (omega arith)) f) in
      put_all-new_entries ps ((seq + 1) % 2 ^ 64) (put k v t) (put-IsSorted k v t h)
        (rw put_here fresh) (rw next (omega arith))
      ∙ ap (λ u. u ++ new_entries ((seq + 1) % 2 ^ 64) ps) put_here
      ∙ append_assoc q ((k, v) ∷ []) _

  -- The part of `enqueue_batch_sync` behind the quota.
  pub written : List (Bytes × Bytes) → Registry w → Registry w
  written ps s = (write_opt w (puts (new_entries s.seq ps)) (after_loop (length ps) s)).1

  pub table-written :
      (ps : List (Bytes × Bytes)) (s : Registry w)
      → Provisioned w tenant s
      → (pending ff tenant (written ps s) ≡ put_all (new_entries s.seq ps) (pending ff tenant s))
        × (inflight ff tenant (written ps s) ≡ inflight ff tenant s)
        × (dlq ff tenant (written ps s) ≡ dlq ff tenant s)
  unfolding written after_loop
  table-written ps s p =
      let es = new_entries s.seq ps in
      let k = puts-Known (w.has_cf s.db) es p.has_pending in
      (
        table-write_opt ff (puts es) (after_loop (length ps) s) (cf_pending tenant) k
            ∙ apply-puts es _,
        table-write_opt ff (puts es) (after_loop (length ps) s) (cf_inflight tenant) k
            ∙ apply-puts_other (cf_inflight tenant) es _ (pending_inflight tenant tenant),
        table-write_opt ff (puts es) (after_loop (length ps) s) (cf_dlq tenant) k
            ∙ apply-puts_other (cf_dlq tenant) es _ (pending_dlq tenant tenant),
      )

  pub written-seq :
      (ps : List (Bytes × Bytes)) (s : Registry w) → (written ps s).seq ≡ advance (length ps) s.seq
  unfolding written after_loop write_opt
  written-seq ps s = refl

  pub written-Provisioned :
      (ps : List (Bytes × Bytes)) (s : Registry w)
      → Provisioned w tenant s
      → Provisioned w tenant (written ps s)
  unfolding written after_loop write_opt
  written-Provisioned ps s p = record {
    has_pending = ff.has_cf-write s.db _ _ ∙ p.has_pending;
    has_inflight = ff.has_cf-write s.db _ _ ∙ p.has_inflight;
    has_dlq = ff.has_cf-write s.db _ _ ∙ p.has_dlq;
  }

-- The registry with the queue's lock in its map.
abbrev pub locked : (w : World) (tenant queue : Bytes) → Registry w → Registry w
locked w tenant queue s = (queue_lock w tenant queue s).1

pub locked-Provisioned :
    (w : World) (tenant queue : Bytes) (s : Registry w)
    → Provisioned w tenant s
    → Provisioned w tenant (locked w tenant queue s)
unfolding queue_lock
locked-Provisioned w tenant queue s p = record {
  has_pending = p.has_pending;
  has_inflight = p.has_inflight;
  has_dlq = p.has_dlq;
}

module _ {w : World} (ff : FaultFree w) (tenant queue : Bytes) where
  -- An enqueue whose quota is met writes, and returns the identifiers.
  pub enqueue_run :
      (ps : List (Bytes × Bytes)) (policy : NamespacePolicy) (times : Times w) (s s' : Registry w)
      → enforce_quota w tenant queue policy (length ps) times (locked w tenant queue s)
        ≡ (ok tt, s')
      → Provisioned w tenant s'
      → enqueue_batch_sync w tenant queue ps policy times s
        ≡ (ok (map (λ p. p.0) ps), written ff tenant queue times.now ps s')
  unfolding enqueue_batch_sync queue_lock written after_loop
  enqueue_run ps policy times s s' q p = step_ok _ q (
      step_ok _ (require_cf_ok ff (cf_pending tenant) s' p.has_pending) (
        step_ok _ (enqueue_loop_lem ff tenant queue times.now ps [] [] s') (
          step_ok _
            (write_run ff
              (puts ff tenant queue times.now (new_entries ff tenant queue times.now s'.seq ps))
              (after_loop ff tenant queue times.now (length ps) s')
              (puts-Known ff tenant queue times.now (w.has_cf s'.db)
                (new_entries ff tenant queue times.now s'.seq ps) p.has_pending))
            refl)))

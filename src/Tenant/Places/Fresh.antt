-- ===== src/Tenant/Places/Fresh.antt =====
-- Records under fresh numbers, those of an enqueue and of a replay, keep to their places.
use rocksqueue.Base.{
  ℕ, ◌+◌, ◌^◌, ◌≤◌, ◌<◌, ◌≡◌, refl, sym, ap, ◌∙◌, Bool, true, false, List, [], arith, ltb, length,
  ok, Option-cases, Bool-cases, Result-cases, inl, inr, ◌⊎◌, map, suc, ◌∷◌,
}
use rocksqueue.Bytes.{Bytes}
use rocksqueue.Policy.{NamespacePolicy, BacklogPolicy, reject, block, evict_oldest}
use rocksqueue.Rocks.Table.{Table, put_all}
use rocksqueue.Rocks.World.{World, FaultFree}
use rocksqueue.Task.{Task}
use rocksqueue.Tenant.State.{Registry, queue_lock}
use rocksqueue.Tenant.State.View.{pending, dlq, commit-seq, commit-Provisioned}
use rocksqueue.Tenant.Dlq.{replay_dlq}
use rocksqueue.Tenant.Dlq.Loop.{decode_all, decode_all-keys, replay_moves, after_replay}
use rocksqueue.Tenant.Dlq.Replay.{replay_dlq_lem, replay_run, replay_fail_run}
use rocksqueue.Tenant.Dlq.Purge.{length-keys}
use rocksqueue.Tenant.Enqueue.{Times, enforce, enforce_quota, enqueue_batch_sync}
use rocksqueue.Tenant.Enqueue.Append.{
  advance, written, table-written, written-seq, written-Provisioned, locked, enqueue_run,
}
use rocksqueue.Tenant.Enqueue.Quota.{backlog, enforce_lem, enqueue_stops}
use rocksqueue.Tenant.Enqueue.Evict.{evict_enforced}
use rocksqueue.Tenant.Places.{present, numbered, single, IsWellPlaced}
use rocksqueue.Tenant.Places.Tables.{present-put_all}
use rocksqueue.Tenant.Places.Kept.{well_placed}
use rocksqueue.Tenant.Places.Settled.{pending_deleted, same_places}
use rocksqueue.Tenant.Places.Moves.{
  Between, numbered_mono, new_entries-Between, replayed-Between, advance_lem,
}

-- Fresh records join `p`, and `d` may be emptied.
joined :
    (k : Bytes) (p i d x : Table) (m n : ℕ)
    → m ≤ n
    → (present k x ≡ true → Between m n k)
    → single (present k p) (present k i) (present k d) (numbered m k) ≡ true
    → (single (present k (put_all x p)) (present k i) (present k d) (numbered n k) ≡ true)
      × (single (present k (put_all x p)) (present k i) false (numbered n k) ≡ true)
joined k p i d x m n le new s = ground (arith, present-put_all k x p, new, numbered_mono m n k le)

-- The producer never waits under this policy.
abbrev pub is_immediate : BacklogPolicy → Bool
is_immediate reject = true
is_immediate (block timeout_ms) = false
is_immediate evict_oldest = true

policy-cases : (p : BacklogPolicy) → is_immediate p ≡ true → (p ≡ reject) ⊎ (p ≡ evict_oldest)
policy-cases reject h = inl refl
policy-cases (block timeout_ms) h = cc h
policy-cases evict_oldest h = inr refl

length-map : (es : List (Bytes × Task)) → length (map (λ e. e.0) es) ≡ length es
length-map [] = refl
length-map (e ∷ es) = ap suc (length-map es)

module _ {w : World} (ff : FaultFree w) (tenant : Bytes) where
  length-decode_all :
      (t : Table) (tasks : List (Bytes × Task))
      → decode_all w t ≡ ok tasks
      → length tasks ≡ length t
  length-decode_all t tasks d =
      sym (length-map tasks) ∙ ap length (decode_all-keys ff tenant t tasks d) ∙ length-keys t

  pub replay_dlq-IsWellPlaced :
      (s : Registry w)
      → s.seq + length (dlq ff tenant s) < 2 ^ 64
      → IsWellPlaced ff tenant s
      → IsWellPlaced ff tenant (replay_dlq w tenant s).1
  unfolding after_replay present
  replay_dlq-IsWellPlaced s b h = elim (Result-cases (decode_all w (dlq ff tenant s))) [
    | inl (tasks, d) ↦
        let n = length tasks in
        let count : n ≡ length (dlq ff tenant s) = length-decode_all (dlq ff tenant s) tasks d in
        let e = replay_dlq_lem ff tenant tasks s h.provisioned d in
        let run = replay_run ff tenant tasks s h.provisioned d in
        let s' = after_replay ff tenant n s in
        let less : s.seq + n < 2 ^ 64 = omega (arith, count, b) in
        well_placed ff tenant _ _ _ _ (s.seq + n)
          (rw run (
            commit-Provisioned ff tenant (replay_moves ff tenant s.seq tasks) s' (record {
              has_pending = h.provisioned.has_pending;
              has_inflight = h.provisioned.has_inflight;
              has_dlq = h.provisioned.has_dlq;
            })))
          e.2 e.3 e.1 (e.4 ∙ advance_lem n s.seq less)
          (λ k.
            (joined k (pending ff tenant s) _ (dlq ff tenant s) _ s.seq (s.seq + n) (omega arith)
              (replayed-Between ff k s.seq (s.seq + n) less tenant s.seq tasks (omega arith)
                (omega arith))
              (h.placed k)).1)
    | inr (e, d) ↦
        let r = replay_fail_run ff tenant e s h.provisioned d in
        let later : advance r.0 s.seq ≡ s.seq + r.0 =
          advance_lem r.0 s.seq (omega (arith, r.1, b)) in
        rw r.2 (
          well_placed ff tenant _ _ _ _ (s.seq + r.0)
            (record {
              has_pending = h.provisioned.has_pending;
              has_inflight = h.provisioned.has_inflight;
              has_dlq = h.provisioned.has_dlq;
            })
            refl refl refl later
            (λ k. ground (arith, numbered_mono s.seq (s.seq + r.0) k (omega arith), h.placed k)))
  ]

  module _ (queue : Bytes) (ps : List (Bytes × Bytes)) (policy : NamespacePolicy)
      (times : Times w) where
    written-IsWellPlaced :
        (s : Registry w)
        → s.seq + length ps < 2 ^ 64
        → IsWellPlaced ff tenant s
        → IsWellPlaced ff tenant (written ff tenant queue times.now ps s)
    written-IsWellPlaced s b h =
        let t = table-written ff tenant queue times.now ps s h.provisioned in
        well_placed ff tenant _ _ _ _ (s.seq + length ps)
          (written-Provisioned ff tenant queue times.now ps s h.provisioned) t.0 t.1 t.2
          (written-seq ff tenant queue times.now ps s ∙ advance_lem (length ps) s.seq b)
          (λ k.
            (joined k _ _ _ _ s.seq (s.seq + length ps) (omega arith)
              (new_entries-Between ff k s.seq (s.seq + length ps) b tenant queue times.now s.seq ps
                (omega arith) (omega arith))
              (h.placed k)).0)

    -- A policy that does not wait admits the batch or refuses it, and may evict before.
    enforced :
        (s : Registry w)
        → is_immediate policy.backlog_policy ≡ true
        → IsWellPlaced ff tenant s
        → (s' : Registry w) × ((enforce_quota w tenant queue policy (length ps) times s).1 ≡ s')
          × (s'.seq ≡ s.seq)
          × IsWellPlaced ff tenant s'
    unfolding enforce
    enforced s im h = elim (Option-cases policy.backlog_quota) [
      | inl e ↦ (s, unfold enforce_quota in rw e refl, refl, h)
      | inr (quota, e) ↦
          let f = enforce_lem ff tenant queue policy times quota (length ps) s e h.provisioned in
          elim (policy-cases policy.backlog_policy im) [
            | inl p ↦ (
              s,
              rw f (
                  rw (p, enforce)
                    (elim (Bool-cases (ltb quota (backlog ff tenant queue s + length ps))) [
                      | inl q ↦ rw q refl
                      | inr q ↦ rw q refl
                    ])),
              refl,
              h,
            )
            | inr p ↦ (
              _,
              ap (λ r. r.1)
                  (evict_enforced ff tenant queue policy times quota (length ps) s e p
                    h.provisioned),
              commit-seq ff _ s,
              pending_deleted ff tenant _ s h,
            )
          ]
    ]

    -- The batch is written when the quota admits it, whatever was done before.
    pub enqueue_placed :
        (s : Registry w)
        → let l = locked w tenant queue s in
          let t = (enforce_quota w tenant queue policy (length ps) times l).1 in
          IsWellPlaced ff tenant t
          → t.seq + length ps < 2 ^ 64
          → IsWellPlaced ff tenant (enqueue_batch_sync w tenant queue ps policy times s).1
    enqueue_placed s h b =
        let l = locked w tenant queue s in
        let t = (enforce_quota w tenant queue policy (length ps) times l).1 in
        elim (Result-cases (enforce_quota w tenant queue policy (length ps) times l).0) [
          | inl (x, e) ↦
              rw (enqueue_run ff tenant queue ps policy times s t (λ i. (e i, t)) h.provisioned)
                (written-IsWellPlaced t b h)
          | inr (q, e) ↦ rw (enqueue_stops ff tenant queue ps policy times s q t (λ i. (e i, t))) h
        ]

    pub enqueue-IsWellPlaced :
        (s : Registry w)
        → is_immediate policy.backlog_policy ≡ true
        → s.seq + length ps < 2 ^ 64
        → IsWellPlaced ff tenant s
        → IsWellPlaced ff tenant (enqueue_batch_sync w tenant queue ps policy times s).1
    enqueue-IsWellPlaced s im b h =
        let l = locked w tenant queue s in
        let hl : IsWellPlaced ff tenant l =
          unfold queue_lock in same_places ff tenant s l refl refl h in
        let same : l.seq ≡ s.seq = unfold queue_lock in refl in
        let t = enforced l im hl in
        enqueue_placed s (rw t.1 t.3) (omega (arith, ap (λ x. x.seq) t.1, t.2, same, b))

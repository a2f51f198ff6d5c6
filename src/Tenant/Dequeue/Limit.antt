-- ===== src/Tenant/Dequeue/Limit.antt =====
-- The bound on a queue's inflight tasks.
use rocksqueue.Base.{
  ℕ, ◌+◌, ◌-◌, ◌≤◌, ◌≡◌, refl, false, List, [], ◌∷◌, length, arith, ok, leb, min, max, ◌==◌,
  if◌then◌else◌, Bool-cases, inl, inr, step_ok, pure,
}
use rocksqueue.Bytes.{Bytes}
use rocksqueue.Rocks.Table.{Table, put, put_all, prefixed}
use rocksqueue.Rocks.World.{World, FaultFree}
use rocksqueue.Task.{Task}
use rocksqueue.Task.Keys.{queue_prefix}
use rocksqueue.Tenant.Names.{cf_inflight}
use rocksqueue.Tenant.State.{Registry, queue_lock}
use rocksqueue.Tenant.State.View.{
  Provisioned, pending, inflight, of_queue, require_cf_ok, count_prefix_lem,
}
use rocksqueue.Tenant.Enqueue.Append.{locked, locked-Provisioned}
use rocksqueue.Tenant.Dequeue.{dequeue_batch_unlocked, dequeue_with_max_inflight, saturating_add}
use rocksqueue.Tenant.Dequeue.Front.{delivered, length-delivered-le}
use rocksqueue.Tenant.Dequeue.Loop.{to_inflight}
use rocksqueue.Tenant.Dequeue.Effect.{front, dequeue_batch_unlocked_lem}

length-put-le : (k v : Bytes) (t : Table) → length (put k v t) ≤ length t + 1
unfolding put
length-put-le k v [] = omega arith
length-put-le k v ((j, x) ∷ t) = ground (arith, length-put-le k v t)

length-prefixed-put :
    (p k v : Bytes) (t : Table) → length (prefixed p (put k v t)) ≤ length (prefixed p t) + 1
unfolding put prefixed
length-prefixed-put p k v [] = ground arith
length-prefixed-put p k v ((j, x) ∷ t) = ground (arith, length-prefixed-put p k v t)

length-prefixed-put_all :
    (p : Bytes) (es t : Table)
    → length (prefixed p (put_all es t)) ≤ length (prefixed p t) + length es
unfolding put_all
length-prefixed-put_all p [] t = omega arith
length-prefixed-put_all p ((k, v) ∷ es) t =
    omega (arith, length-prefixed-put_all p es (put k v t), length-prefixed-put p k v t)

module _ {w : World} (ff : FaultFree w) (tenant queue : Bytes) (clock : ℕ → ℕ) where
  pub length-to_inflight :
      (d : ℕ) (t : Table)
      → length (to_inflight ff tenant queue clock d t) ≡ length (delivered w d t)
  unfolding to_inflight delivered
  length-to_inflight d [] = refl
  length-to_inflight d ((k, v) ∷ t) = ground (arith, length-to_inflight d t)

  abbrev pub in_flight : Registry w → ℕ
  in_flight s = length (of_queue queue (inflight ff tenant s))

  -- A dequeue returns at most `limit` tasks, and no more come to be inflight.
  unlocked-le :
      (limit visibility_timeout_ms : ℕ) (s : Registry w)
      → Provisioned w tenant s
      → let r = dequeue_batch_unlocked w tenant queue clock limit visibility_timeout_ms s in
        (tasks : List (Bytes × Task)) × (r.0 ≡ ok tasks)
        × (length tasks ≤ limit)
        × (in_flight r.1 ≤ in_flight s + length tasks)
  unlocked-le limit vt s p =
      let d = saturating_add (clock 0) vt in
      let c = front ff tenant queue clock limit s in
      let a = dequeue_batch_unlocked_lem ff tenant queue clock limit vt s p in
      (
        delivered w d c,
        a.0,
        length-delivered-le w limit d (of_queue queue (pending ff tenant s)),
        rw a.4 (
            omega (
              arith,
              length-prefixed-put_all (queue_prefix queue) (to_inflight ff tenant queue clock d c)
                  (inflight ff tenant s),
              length-to_inflight d c,
            )),
      )

  -- What such a dequeue does behind its first test.
  pub limited_run :
      (limit visibility_timeout_ms max_inflight : ℕ) (s : Registry w)
      → Provisioned w tenant s
      → (max_inflight == 0) ≡ false
      → dequeue_with_max_inflight w tenant queue clock limit visibility_timeout_ms max_inflight s
        ≡ (if leb max_inflight (in_flight s)
              then pure []
              else dequeue_batch_unlocked w tenant queue clock
                  (min limit (max_inflight - in_flight s))
                  visibility_timeout_ms)
            (locked w tenant queue s)
  unfolding dequeue_with_max_inflight queue_lock
  limited_run limit vt bound s p z =
      let s' = locked w tenant queue s in
      let p' = locked-Provisioned w tenant queue s p in
      rw (dequeue_with_max_inflight, z)
        (step_ok _ (require_cf_ok ff (cf_inflight tenant) s' p'.has_inflight)
          (step_ok _ (count_prefix_lem ff (cf_inflight tenant) queue s' p'.has_inflight) refl))

  -- On a database where no call fails, a dequeue with a bound on the inflight tasks succeeds with
  -- at most `limit` tasks, and the queue's inflight tasks do not exceed the bound afterwards,
  -- or are no more than they were, if they exceeded it before.
  pub dequeue_with_max_inflight_lem :
      (limit visibility_timeout_ms max_inflight : ℕ) (s : Registry w)
      → Provisioned w tenant s
      → let r =
          dequeue_with_max_inflight w tenant queue clock limit visibility_timeout_ms max_inflight
            s in
        (tasks : List (Bytes × Task)) × (r.0 ≡ ok tasks)
        × (length tasks ≤ limit)
        × (in_flight r.1 ≤ max max_inflight (in_flight s))
  unfolding dequeue_with_max_inflight queue_lock
  dequeue_with_max_inflight_lem limit vt bound s p = elim (Bool-cases (bound == 0)) [
    | inl z ↦ rw (dequeue_with_max_inflight, z) ([], refl, omega arith, omega arith)
    | inr z ↦ elim (Bool-cases (leb bound (in_flight s))) [
      | inl full ↦
          rw (limited_run limit vt bound s p z) (rw full ([], refl, omega arith, omega arith))
      | inr room ↦
          let a = unlocked-le (min limit (bound - in_flight s)) vt s' p' in
          rw (limited_run limit vt bound s p z)
            (rw room (a.0, a.1, omega (arith, a.2), ground (arith, a.2, a.3)))
    ]
  ]
    where
      s' : Registry w
      s' = locked w tenant queue s

      p' : Provisioned w tenant s'
      p' = locked-Provisioned w tenant queue s p

-- ===== src/Tenant/Dlq/Loop.antt =====
-- The loop of a replay: the tasks that it decodes, and what its batch does to the tables.
use rocksqueue.Base.{
  ◌≤◌, Bool, ℕ, suc, ◌+◌, ◌%◌, ◌^◌, ◌≡◌, refl, ap, ◌∙◌, true, List, [], ◌∷◌, ◌++◌, map, length,
  append_assoc, append-nil, arith, Result, ok, err, QueueError, and_then, Result-cases, inl, inr,
  step_ok, step_err, ltb,
}
use rocksqueue.Bytes.{Bytes}
use rocksqueue.Bytes.Order.{beq_refl}
use rocksqueue.Rocks.Table.{
  Table, Batch, put_cf, delete_cf, keys, put_all, delete, delete_all, apply,
}
use rocksqueue.Rocks.World.{World, FaultFree, Known}
use rocksqueue.Task.{Task}
use rocksqueue.Task.Keys.{encode_key}
use rocksqueue.Tenant.Names.{cf_pending, cf_inflight, cf_dlq}
use rocksqueue.Tenant.Names.Distinct.{dlq_pending, dlq_inflight, pending_dlq, pending_inflight}
use rocksqueue.Tenant.State.{Registry, next_seq}
use rocksqueue.Tenant.State.View.{nonempty}
use rocksqueue.Tenant.Enqueue.Append.{advance}
use rocksqueue.Tenant.Dlq.{replay_loop}

-- All records as tasks, or the first error.
unfoldable pub decode_all : (w : World) → Table → Result (List (Bytes × Task))
decode_all w [] = ok []
decode_all w ((k, v) ∷ t) =
    and_then (w.deserialize v) λ task. and_then (decode_all w t) λ tasks. ok ((k, task) ∷ tasks)

module _ {w : World} (ff : FaultFree w) (tenant : Bytes) where
  abbrev pub renewed : Task → Task
  renewed task = record task { attempts = 0; deadline = 0 }

  -- The tasks as they are pending again, numbered from `seq` on.
  unfoldable pub replayed : ℕ → List (Bytes × Task) → Table
  replayed seq [] = []
  replayed seq ((k, task) ∷ tasks) =
      (encode_key task.queue seq, ff.encode (renewed task)) ∷ replayed ((seq + 1) % 2 ^ 64) tasks

  unfoldable pub replay_moves : ℕ → List (Bytes × Task) → Batch
  replay_moves seq [] = []
  replay_moves seq ((k, task) ∷ tasks) =
      put_cf (cf_pending tenant) (encode_key task.queue seq) (ff.encode (renewed task))
      ∷ delete_cf (cf_dlq tenant) k
      ∷ replay_moves ((seq + 1) % 2 ^ 64) tasks

  unfoldable pub after_replay : ℕ → Registry w → Registry w
  after_replay n s = record s { seq = advance n s.seq }

  abbrev moved : (seq : ℕ) (k : Bytes) → Task → Batch
  moved seq k task =
      put_cf (cf_pending tenant) (encode_key task.queue seq) (ff.encode (renewed task))
      ∷ delete_cf (cf_dlq tenant) k
      ∷ []

  next_seq_run : (s : Registry w) → next_seq w s ≡ (ok s.seq, after_replay 1 s)
  unfolding next_seq after_replay advance
  next_seq_run s = refl

  replay_step :
      (k v : Bytes) (t : Table) (task : Task) (batch : Batch) (count : ℕ) (s : Registry w)
      → w.deserialize v ≡ ok task
      → replay_loop w tenant (map ok ((k, v) ∷ t)) batch count s
        ≡ replay_loop w tenant
            (map ok t)
            (batch ++ moved s.seq k task)
            (count + 1)
            (after_replay 1 s)
  unfolding replay_loop
  replay_step k v t task batch count s d =
      step_ok _ (λ i. (d i, s))
        (step_ok _ (next_seq_run s)
          (step_ok _ (λ i. (ff.serialize_lem (renewed task) i, after_replay 1 s)) refl))

  replay_stop :
      (k v : Bytes) (t : Table) (e : QueueError) (batch : Batch) (count : ℕ) (s : Registry w)
      → w.deserialize v ≡ err e
      → replay_loop w tenant (map ok ((k, v) ∷ t)) batch count s ≡ (err e, s)
  unfolding replay_loop
  replay_stop k v t e batch count s d = step_err _ (λ i. (d i, s))

  pub replay_loop_ok :
      (t : Table) (tasks : List (Bytes × Task)) (batch : Batch) (count : ℕ) (s : Registry w)
      → decode_all w t ≡ ok tasks
      → replay_loop w tenant (map ok t) batch count s ≡ (
        ok (batch ++ replay_moves s.seq tasks, count + length tasks),
        after_replay (length tasks) s,
      )
  unfolding decode_all replay_moves after_replay advance
  replay_loop_ok [] tasks batch count s h =
      let e : [] ≡ tasks = cc h in
      rw (← e, append-nil batch) (unfold replay_loop in (λ i. (ok (batch, sum i), s)))
    where
      sum : count ≡ count + 0
      sum = omega arith
  replay_loop_ok ((k, v) ∷ t) tasks batch count s h = elim (Result-cases (w.deserialize v)) [
    | inr (q, d) ↦ cc (rw d at h)
    | inl (task, d) ↦ elim (Result-cases (decode_all w t)) [
      | inr (q, e) ↦ cc (rw (d, e) at h)
      | inl (ts, e) ↦
          let same : (k, task) ∷ ts ≡ tasks = cc (rw (d, e) at h) in
          let sum : count + 1 + length ts ≡ count + suc (length ts) = omega arith in
          rw (← same) (
            replay_step k v t task batch count s d
            ∙ replay_loop_ok t ts _ (count + 1) (after_replay 1 s) e
            ∙ (λ i. (
              ok (
                append_assoc batch (moved s.seq k task) (replay_moves ((s.seq + 1) % 2 ^ 64) ts) i,
                sum i,
              ),
              after_replay (suc (length ts)) s,
            )))
    ]
  ]

  -- A replay that fails has only drawn sequence numbers.
  pub replay_loop_err :
      (t : Table) (e : QueueError) (batch : Batch) (count : ℕ) (s : Registry w)
      → decode_all w t ≡ err e
      → (n : ℕ) × (n ≤ length t)
        × (replay_loop w tenant (map ok t) batch count s ≡ (err e, after_replay n s))
  unfolding decode_all after_replay advance
  replay_loop_err [] e batch count s h = cc h
  replay_loop_err ((k, v) ∷ t) e batch count s h = elim (Result-cases (w.deserialize v)) [
    | inr (q, d) ↦
        let same : q ≡ e = cc (rw d at h) in
        (0, omega arith, replay_stop k v t e batch count s (d ∙ ap err same))
    | inl (task, d) ↦ elim (Result-cases (decode_all w t)) [
      | inl (ts, x) ↦ cc (rw (d, x) at h)
      | inr (q, x) ↦
          let same : q ≡ e = cc (rw (d, x) at h) in
          let r =
            replay_loop_err t e (batch ++ moved s.seq k task) (count + 1) (after_replay 1 s)
              (x ∙ ap err same) in
          (suc r.0, omega (arith, r.1), replay_step k v t task batch count s d ∙ r.2)
    ]
  ]

  pub apply-dlq :
      (seq : ℕ) (tasks : List (Bytes × Task)) (u : Table)
      → apply (cf_dlq tenant) (replay_moves seq tasks) u ≡ delete_all (map (λ e. e.0) tasks) u
  unfolding apply replay_moves delete_all
  apply-dlq seq [] u = refl
  apply-dlq seq ((k, task) ∷ tasks) u =
      rw (apply, beq_refl, pending_dlq) (apply-dlq ((seq + 1) % 2 ^ 64) tasks (delete k u))

  pub apply-pending :
      (seq : ℕ) (tasks : List (Bytes × Task)) (u : Table)
      → apply (cf_pending tenant) (replay_moves seq tasks) u ≡ put_all (replayed seq tasks) u
  unfolding apply replay_moves put_all replayed
  apply-pending seq [] u = refl
  apply-pending seq ((k, task) ∷ tasks) u =
      rw (apply, beq_refl, dlq_pending) (apply-pending ((seq + 1) % 2 ^ 64) tasks _)

  pub apply-inflight :
      (seq : ℕ) (tasks : List (Bytes × Task)) (u : Table)
      → apply (cf_inflight tenant) (replay_moves seq tasks) u ≡ u
  unfolding apply replay_moves
  apply-inflight seq [] u = refl
  apply-inflight seq ((k, task) ∷ tasks) u =
      rw (apply, dlq_inflight, pending_inflight) (apply-inflight ((seq + 1) % 2 ^ 64) tasks u)

  pub replay_moves-Known :
      (has : Bytes → Bool) (seq : ℕ) (tasks : List (Bytes × Task))
      → has (cf_pending tenant) ≡ true
      → has (cf_dlq tenant) ≡ true
      → Known has (replay_moves seq tasks)
  unfolding replay_moves
  replay_moves-Known has seq [] a b = tt
  replay_moves-Known has seq ((k, task) ∷ tasks) a b =
      (a, (b, replay_moves-Known has ((seq + 1) % 2 ^ 64) tasks a b))

  pub wrote :
      (seq : ℕ) (tasks : List (Bytes × Task))
      → ltb 0 (0 + length tasks) ≡ nonempty ff (replay_moves seq tasks)
  unfolding replay_moves
  wrote seq [] = refl
  wrote seq ((k, task) ∷ tasks) = ground arith

  pub decode_all-keys :
      (t : Table) (tasks : List (Bytes × Task))
      → decode_all w t ≡ ok tasks
      → map (λ e. e.0) tasks ≡ keys t
  unfolding decode_all
  decode_all-keys [] tasks h = let same : [] ≡ tasks = cc h in rw (← same) refl
  decode_all-keys ((k, v) ∷ t) tasks h = elim (Result-cases (w.deserialize v)) [
    | inr (q, d) ↦ cc (rw d at h)
    | inl (task, d) ↦ elim (Result-cases (decode_all w t)) [
      | inr (q, e) ↦ cc (rw (d, e) at h)
      | inl (ts, e) ↦
          let same : (k, task) ∷ ts ≡ tasks = cc (rw (d, e) at h) in
          rw (← same) (ap (◌∷◌ k) (decode_all-keys t ts e))
    ]
  ]

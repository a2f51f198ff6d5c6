-- ===== src/Tenant/Enqueue/Blocked.antt =====
-- The Block policy: a producer waits for room until its deadline.
use rocksqueue.Base.{
  ℕ, ◌+◌, ◌%◌, ◌^◌, ◌≤◌, ◌<◌, ◌≡◌, refl, true, false, some, List, [], ◌∷◌, All, ok, err,
  backlog_quota_exceeded, step_ok, Result, leb, arith, Bool-cases, inl, inr, ◌⊎◌,
}
use rocksqueue.Bytes.{Bytes}
use rocksqueue.Policy.{NamespacePolicy, block}
use rocksqueue.Rocks.World.{World, FaultFree}
use rocksqueue.Tenant.State.{Registry}
use rocksqueue.Tenant.State.View.{Provisioned, depth_lem}
use rocksqueue.Tenant.Enqueue.{Poll, Times, enforce, enforce_quota, block_loop}
use rocksqueue.Tenant.Enqueue.Quota.{backlog, enforce_lem}

-- The clock of some round has reached the deadline.
abbrev pub Reaches : {w : World} → ℕ → List (Poll w) → Type 0
Reaches deadline [] = ⊥
Reaches deadline (poll ∷ polls) = (deadline ≤ poll.now) ⊎ Reaches deadline polls

-- The other threads leave the tenant's column families in place.
abbrev pub KeepsTenant : (w : World) (tenant : Bytes) → Poll w → Type 0
KeepsTenant w tenant poll =
    (s : Registry w) → Provisioned w tenant s → Provisioned w tenant (poll.others s)

-- How a wait for room for `n` tasks ends: there is room, or the deadline has passed and there is
-- none, which is reported with the counts of that moment.
pub data Waited {w : World} (ff : FaultFree w) (tenant queue : Bytes) (quota n : ℕ)
    (r : Result (Unit {0}) × Registry w) : Type 0 where
  room :
      r.0 ≡ ok tt
      → Provisioned w tenant r.1
      → backlog ff tenant queue r.1 + n ≤ quota
      → Waited ff tenant queue quota n r
  timed_out :
      r.0 ≡ err (backlog_quota_exceeded tenant queue (backlog ff tenant queue r.1) quota n)
      → quota < backlog ff tenant queue r.1 + n
      → Waited ff tenant queue quota n r

module _ {w : World} (ff : FaultFree w) (tenant queue : Bytes) (quota n : ℕ) where
  module _ (deadline : ℕ) (poll : Poll w) (polls : List (Poll w)) (s : Registry w)
      (p : Provisioned w tenant s) where
    pub block_room :
        leb (backlog ff tenant queue s + n) quota ≡ true
        → block_loop w tenant queue quota n deadline (poll ∷ polls) s ≡ (ok tt, s)
    unfolding block_loop
    block_room h = step_ok _ (depth_lem ff tenant queue s p) (rw h refl)

    pub block_late :
        leb (backlog ff tenant queue s + n) quota ≡ false
        → leb deadline poll.now ≡ true
        → block_loop w tenant queue quota n deadline (poll ∷ polls) s
          ≡ (err (backlog_quota_exceeded tenant queue (backlog ff tenant queue s) quota n), s)
    unfolding block_loop
    block_late h d = step_ok _ (depth_lem ff tenant queue s p) (rw h (rw d refl))

    pub block_again :
        leb (backlog ff tenant queue s + n) quota ≡ false
        → leb deadline poll.now ≡ false
        → block_loop w tenant queue quota n deadline (poll ∷ polls) s
          ≡ block_loop w tenant queue quota n deadline polls (poll.others s)
    unfolding block_loop
    block_again h d = step_ok _ (depth_lem ff tenant queue s p) (rw h (rw d refl))

  block_loop_lem :
      (deadline : ℕ) (polls : List (Poll w)) (s : Registry w)
      → Reaches deadline polls
      → All (KeepsTenant w tenant) polls
      → Provisioned w tenant s
      → Waited ff tenant queue quota n (block_loop w tenant queue quota n deadline polls s)
  block_loop_lem deadline [] s h k p = absurd h
  block_loop_lem deadline (poll ∷ polls) s h k p =
      elim (Bool-cases (leb (backlog ff tenant queue s + n) quota)) [
        | inl a ↦ rw (block_room deadline poll polls s p a) (Waited.room refl p (ground arith))
        | inr a ↦ elim (Bool-cases (leb deadline poll.now)) [
          | inl b ↦
              rw (block_late deadline poll polls s p a b) (Waited.timed_out refl (ground arith))
          | inr b ↦
              rw (block_again deadline poll polls s p a b)
                (block_loop_lem deadline polls (poll.others s) (later h b) k.1 (k.0 s p))
        ]
      ]
    where
      later :
          (deadline ≤ poll.now) ⊎ Reaches deadline polls
          → leb deadline poll.now ≡ false
          → Reaches deadline polls
      later (inl h) b = absurd (ground arith)
      later (inr h) b = h

  -- Under the Block policy, on a database where no call fails, a producer whose clock reaches its
  -- deadline and whose tenant the other threads do not drop stops waiting: either there is room
  -- for the whole batch within the quota, and the enqueue goes on, or it ends with the quota
  -- error, and the batch exceeds the quota at that moment.
  pub enforce-block :
      (policy : NamespacePolicy) (timeout_ms : ℕ) (times : Times w) (s : Registry w)
      → Provisioned w tenant s
      → policy.backlog_quota ≡ some quota
      → policy.backlog_policy ≡ block timeout_ms
      → Reaches ((times.start + timeout_ms) % 2 ^ 64) times.polls
      → All (KeepsTenant w tenant) times.polls
      → Waited ff tenant queue quota n (enforce_quota w tenant queue policy n times s)
  unfolding enforce block_loop
  enforce-block policy timeout_ms times s p has is h k =
      rw (enforce_lem ff tenant queue policy times quota n s has p)
        (rw (enforce, is) (block_loop_lem _ times.polls s h k p))

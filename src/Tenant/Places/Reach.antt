-- ===== src/Tenant/Places/Reach.antt =====
-- What holds after every call of a history.
use rocksqueue.Base.{
  Option-cases, List, [], ◌∷◌, ◌%◌, ℕ, ◌+◌, ◌^◌, ◌≤◌, ◌≡◌, refl, List, arith, length, Bool-cases,
  inl, inr, ◌==◌, ◌-◌, leb, min,
}
use rocksqueue.Bytes.{Bytes}
use rocksqueue.Policy.{NamespacePolicy, block}
use rocksqueue.Rocks.World.{World, FaultFree}
use rocksqueue.Tenant.State.{Registry, queue_lock}
use rocksqueue.Tenant.State.View.{Provisioned, pending, inflight, dlq}
use rocksqueue.Tenant.Dequeue.{dequeue_batch, dequeue_with_max_inflight}
use rocksqueue.Tenant.Dequeue.Limit.{in_flight, limited_run}
use rocksqueue.Tenant.Enqueue.{Poll, Times, enforce, enforce_quota, block_loop}
use rocksqueue.Tenant.Enqueue.Append.{locked}
use rocksqueue.Tenant.Places.{IsWellPlaced}
use rocksqueue.Tenant.Places.Steps.{
  Step, enqueued, enqueued_in_turn, dequeued, dequeued_within, acked, acked_up_to, nacked, reaped,
  purged, replayed, other, Waiting, no_round, round, Reach, here, next,
}
use rocksqueue.Tenant.Enqueue.Blocked.{block_room, block_late, block_again}
use rocksqueue.Tenant.Enqueue.Quota.{backlog, enforce_lem}
use rocksqueue.Tenant.Places.Kept.{well_placed, dequeue-IsWellPlaced, reap-IsWellPlaced}
use rocksqueue.Tenant.Places.Moves.{numbered_mono}
use rocksqueue.Tenant.Places.Settled.{
  same_places, ack_batch-IsWellPlaced, cumulative_ack-IsWellPlaced, purge_dlq-IsWellPlaced,
  nack-IsWellPlaced,
}
use rocksqueue.Tenant.Places.Fresh.{enqueue_placed, enqueue-IsWellPlaced, replay_dlq-IsWellPlaced}

module _ {w : World} (ff : FaultFree w) (tenant : Bytes) where
  pub locked-IsWellPlaced :
      (queue : Bytes) (s : Registry w)
      → IsWellPlaced ff tenant s
      → IsWellPlaced ff tenant (locked w tenant queue s)
  unfolding queue_lock
  locked-IsWellPlaced queue s h = same_places ff tenant s _ refl refl h

  dequeue_batch-IsWellPlaced :
      (queue : Bytes) (clock : ℕ → ℕ) (limit visibility_timeout_ms : ℕ) (s : Registry w)
      → IsWellPlaced ff tenant s
      → IsWellPlaced ff tenant (dequeue_batch w tenant queue clock limit visibility_timeout_ms s).1
  unfolding dequeue_batch queue_lock
  dequeue_batch-IsWellPlaced queue clock limit vt s h =
      dequeue-IsWellPlaced ff tenant queue clock limit vt _ (locked-IsWellPlaced queue s h)

  dequeue_with_max_inflight-IsWellPlaced :
      (queue : Bytes) (clock : ℕ → ℕ) (limit visibility_timeout_ms max_inflight : ℕ)
      (s : Registry w)
      → IsWellPlaced ff tenant s
      → IsWellPlaced ff tenant
          (dequeue_with_max_inflight w tenant queue clock limit visibility_timeout_ms max_inflight
            s).1
  unfolding dequeue_with_max_inflight
  dequeue_with_max_inflight-IsWellPlaced queue clock limit vt bound s h =
      let l = locked-IsWellPlaced queue s h in
      let n = in_flight ff tenant queue clock s in
      elim (Bool-cases (bound == 0)) [
        | inl z ↦ rw (dequeue_with_max_inflight, z) h
        | inr z ↦
            rw (limited_run ff tenant queue clock limit vt bound s h.provisioned z)
              (elim (Bool-cases (leb bound n)) [
                | inl full ↦ rw full l
                | inr room ↦
                    rw room
                      (dequeue-IsWellPlaced ff tenant queue clock (min limit (bound - n)) vt _ l)
              ])
      ]

  other-IsWellPlaced :
      (s s' : Registry w)
      → pending ff tenant s' ≡ pending ff tenant s
      → inflight ff tenant s' ≡ inflight ff tenant s
      → dlq ff tenant s' ≡ dlq ff tenant s
      → s.seq ≤ s'.seq
      → Provisioned w tenant s'
      → IsWellPlaced ff tenant s
      → IsWellPlaced ff tenant s'
  other-IsWellPlaced s s' p i d le prov h =
      well_placed ff tenant s' _ _ _ _ prov p i d refl
        (λ k. ground (arith, numbered_mono s.seq s'.seq k le, h.placed k))

  -- A quota under Block is enforced by the loop of a blocked producer.
  enforce_places :
      (queue : Bytes) (policy : NamespacePolicy) (n timeout_ms : ℕ) (times : Times w)
      (s : Registry w)
      → policy.backlog_policy ≡ block timeout_ms
      → IsWellPlaced ff tenant s
      → ((quota : ℕ)
          → IsWellPlaced ff tenant
              (block_loop w tenant queue quota n
                ((times.start + timeout_ms) % 2 ^ 64)
                times.polls
                s).1)
      → IsWellPlaced ff tenant (enforce_quota w tenant queue policy n times s).1
  unfolding enforce
  enforce_places queue policy n timeout_ms times s e h loop =
      elim (Option-cases policy.backlog_quota) [
        | inl q ↦ unfold enforce_quota in rw q h
        | inr (quota, q) ↦
            rw (enforce_lem ff tenant queue policy times quota n s q h.provisioned)
              (rw (enforce, e) (loop quota))
      ]

  no_round_places :
      (queue : Bytes) (quota n deadline : ℕ) (s : Registry w)
      → IsWellPlaced ff tenant s
      → IsWellPlaced ff tenant (block_loop w tenant queue quota n deadline [] s).1
  unfolding block_loop
  no_round_places queue quota n deadline s h = h

  round_places :
      (queue : Bytes) (quota n deadline : ℕ) (poll : Poll w) (polls : List (Poll w))
      (s : Registry w)
      → IsWellPlaced ff tenant s
      → IsWellPlaced ff tenant (block_loop w tenant queue quota n deadline polls (poll.others s)).1
      → IsWellPlaced ff tenant (block_loop w tenant queue quota n deadline (poll ∷ polls) s).1
  round_places queue quota n deadline poll polls s h rest =
      let p = h.provisioned in
      elim (Bool-cases (leb (backlog ff tenant queue s + n) quota)) [
        | inl a ↦ rw (block_room ff tenant queue quota n deadline poll polls s p a) h
        | inr a ↦ elim (Bool-cases (leb deadline poll.now)) [
          | inl b ↦ rw (block_late ff tenant queue quota n deadline poll polls s p a b) h
          | inr b ↦ rw (block_again ff tenant queue quota n deadline poll polls s p a b) rest
        ]
      ]

  mutual
    Step-IsWellPlaced :
        {s s' : Registry w}
        → Step ff tenant s s'
        → IsWellPlaced ff tenant s
        → IsWellPlaced ff tenant s'
    Step-IsWellPlaced (enqueued queue ps policy times s i b) h =
        enqueue-IsWellPlaced ff tenant queue ps policy times s i b h
    Step-IsWellPlaced (enqueued_in_turn queue ps policy timeout times s e wait b) h =
        let l = locked-IsWellPlaced queue s h in
        enqueue_placed ff tenant queue ps policy times s
          (enforce_places queue policy (length ps) timeout times (locked w tenant queue s) e l
            (λ quota.
              block_loop_places queue quota (length ps) ((times.start + timeout) % 2 ^ 64) wait l))
          b
    Step-IsWellPlaced (dequeued queue clock limit vt s) h =
        dequeue_batch-IsWellPlaced queue clock limit vt s h
    Step-IsWellPlaced (dequeued_within queue clock limit vt bound s) h =
        dequeue_with_max_inflight-IsWellPlaced queue clock limit vt bound s h
    Step-IsWellPlaced (acked ks s) h = ack_batch-IsWellPlaced ff tenant ks s h
    Step-IsWellPlaced (acked_up_to queue n s) h = cumulative_ack-IsWellPlaced ff tenant queue n s h
    Step-IsWellPlaced (nacked key now s b) h = nack-IsWellPlaced ff tenant key now s b h
    Step-IsWellPlaced (reaped queue clock s) h = reap-IsWellPlaced ff tenant queue clock s h
    Step-IsWellPlaced (purged s) h = purge_dlq-IsWellPlaced ff tenant s h
    Step-IsWellPlaced (replayed s b) h = replay_dlq-IsWellPlaced ff tenant s b h
    Step-IsWellPlaced (other s s' p i d le prov) h = other-IsWellPlaced s s' p i d le prov h

    block_loop_places :
        (queue : Bytes) (quota n deadline : ℕ) {polls : List (Poll w)} {s : Registry w}
        → Waiting ff tenant polls s
        → IsWellPlaced ff tenant s
        → IsWellPlaced ff tenant (block_loop w tenant queue quota n deadline polls s).1
    block_loop_places queue quota n deadline (no_round s) h =
        no_round_places queue quota n deadline s h
    block_loop_places queue quota n deadline (round poll polls s r wait) h =
        round_places queue quota n deadline poll polls s h
          (block_loop_places queue quota n deadline wait (history-IsWellPlaced r h))

    history-IsWellPlaced :
        {s s' : Registry w}
        → Reach ff tenant s s'
        → IsWellPlaced ff tenant s
        → IsWellPlaced ff tenant s'
    history-IsWellPlaced here h = h
    history-IsWellPlaced (next r st) h = Step-IsWellPlaced st (history-IsWellPlaced r h)

  -- On a database where no call fails, whatever calls are made on a tenant one after the other, in any
  -- order, a producer that waits for room letting other calls pass, while the sequence counter does not wrap:
  -- if at the start no key has records in two of the tenant's column families and every key that
  -- has one was made for a number below the counter, then so it is at the end. A call is taken to
  -- run without any other between its reads and its writes.
  pub Reach-IsWellPlaced :
      (s s' : Registry w)
      → IsWellPlaced ff tenant s
      → Reach ff tenant s s'
      → IsWellPlaced ff tenant s'
  Reach-IsWellPlaced s s' h r = history-IsWellPlaced r h

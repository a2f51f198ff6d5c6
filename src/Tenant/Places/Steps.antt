-- ===== src/Tenant/Places/Steps.antt =====
-- The calls on a tenant's queues, made one after the other, and histories of them.
use rocksqueue.Base.{ℕ, ◌+◌, ◌^◌, ◌≤◌, ◌<◌, ◌≡◌, true, List, [], ◌∷◌, length}
use rocksqueue.Bytes.{Bytes}
use rocksqueue.Policy.{NamespacePolicy, block}
use rocksqueue.Rocks.World.{World, FaultFree}
use rocksqueue.Reaper.{reap_inflight}
use rocksqueue.Tenant.State.{Registry}
use rocksqueue.Tenant.State.View.{Provisioned, pending, inflight, dlq}
use rocksqueue.Tenant.Dequeue.{dequeue_batch, dequeue_with_max_inflight}
use rocksqueue.Tenant.Dlq.{purge_dlq, replay_dlq}
use rocksqueue.Tenant.Enqueue.{Poll, Times, enforce_quota, enqueue_batch_sync}
use rocksqueue.Tenant.Enqueue.Append.{locked}
use rocksqueue.Tenant.Settle.{ack_batch, nack, cumulative_ack}
use rocksqueue.Tenant.Places.Fresh.{is_immediate}

mutual
  -- One call on the tenant, or on another, that runs without any other between its reads and its
  -- writes. A call that draws sequence numbers does not reach the end of the `u64`; `other` is any
  -- step that leaves the tenant's records alone and lets no number be drawn again.
  pub data Step {w : World} (ff : FaultFree w) (tenant : Bytes)
      : Registry w → Registry w → Type 0 where
    enqueued :
        (queue : Bytes) (ps : List (Bytes × Bytes)) (policy : NamespacePolicy) (times : Times w)
        (s : Registry w)
        → is_immediate policy.backlog_policy ≡ true
        → s.seq + length ps < 2 ^ 64
        → Step ff tenant s (enqueue_batch_sync w tenant queue ps policy times s).1
    -- a producer that waits for room: its last round and its batch are this call's, and what the
    -- others do in the rounds before are calls of their own
    enqueued_in_turn :
        (queue : Bytes) (ps : List (Bytes × Bytes)) (policy : NamespacePolicy) (timeout_ms : ℕ)
        (times : Times w) (s : Registry w)
        → policy.backlog_policy ≡ block timeout_ms
        → Waiting ff tenant times.polls (locked w tenant queue s)
        → (enforce_quota w tenant queue policy (length ps) times (locked w tenant queue s)).1.seq
            + length ps
          < 2 ^ 64
        → Step ff tenant s (enqueue_batch_sync w tenant queue ps policy times s).1
    dequeued :
        (queue : Bytes) (clock : ℕ → ℕ) (limit visibility_timeout_ms : ℕ) (s : Registry w)
        → Step ff tenant s (dequeue_batch w tenant queue clock limit visibility_timeout_ms s).1
    dequeued_within :
        (queue : Bytes) (clock : ℕ → ℕ) (limit visibility_timeout_ms max_inflight : ℕ)
        (s : Registry w)
        → Step ff tenant s
            (dequeue_with_max_inflight w tenant queue clock limit visibility_timeout_ms max_inflight
              s).1
    acked : (keys : List Bytes) (s : Registry w) → Step ff tenant s (ack_batch w tenant keys s).1
    acked_up_to :
        (queue : Bytes) (up_to_seq : ℕ) (s : Registry w)
        → Step ff tenant s (cumulative_ack w tenant queue up_to_seq s).1
    nacked :
        (key : Bytes) (now : ℕ) (s : Registry w)
        → s.seq + 1 < 2 ^ 64
        → Step ff tenant s (nack w tenant key now s).1
    reaped :
        (queue : Bytes) (clock : ℕ → ℕ) (s : Registry w)
        → Step ff tenant s (reap_inflight w tenant queue clock s).1
    purged : (s : Registry w) → Step ff tenant s (purge_dlq w tenant s).1
    replayed :
        (s : Registry w)
        → s.seq + length (dlq ff tenant s) < 2 ^ 64
        → Step ff tenant s (replay_dlq w tenant s).1
    other :
        (s s' : Registry w)
        → pending ff tenant s' ≡ pending ff tenant s
        → inflight ff tenant s' ≡ inflight ff tenant s
        → dlq ff tenant s' ≡ dlq ff tenant s
        → s.seq ≤ s'.seq
        → Provisioned w tenant s'
        → Step ff tenant s s'

  -- In every round of a wait the others make a history of calls.
  pub data Waiting {w : World} (ff : FaultFree w) (tenant : Bytes)
      : List (Poll w) → Registry w → Type 0 where
    no_round : (s : Registry w) → Waiting ff tenant [] s
    round :
        (poll : Poll w) (polls : List (Poll w)) (s : Registry w)
        → Reach ff tenant s (poll.others s)
        → Waiting ff tenant polls (poll.others s)
        → Waiting ff tenant (poll ∷ polls) s

  -- A history.
  pub data Reach {w : World} (ff : FaultFree w) (tenant : Bytes)
      : Registry w → Registry w → Type 0 where
    here : {s : Registry w} → Reach ff tenant s s
    next : {s t u : Registry w} → Reach ff tenant s t → Step ff tenant t u → Reach ff tenant s u

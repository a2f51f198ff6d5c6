-- ===== src/Grpc/Operations/Drained.antt =====
-- How a drain ends.
use rocksqueue.Base.{
  ℕ, ◌+◌, ◌*◌, ◌%◌, ◌^◌, ◌≤◌, ◌<◌, ◌==◌, ◌≡◌, refl, ◌⊎◌, inl, inr, Bool, true, false, ◌&&◌, List,
  [], ◌∷◌, ◌++◌, ap, length, max, All, arith, leb, Bool-cases,
}
use rocksqueue.Bytes.{Bytes}
use rocksqueue.Float.{F64}
use rocksqueue.Grpc.Handler.{Server, Reply, reply, handled, offload, offload_ok}
use rocksqueue.Grpc.Operations.{
  DrainPoll, Drain, drained, remaining, first_queue, drain_loop, drain_tenant,
}
use rocksqueue.Rocks.World.{World, FaultFree}
use rocksqueue.Run.{Run, returns}
use rocksqueue.Scheduler.{set_paused}
use rocksqueue.Tenant.State.{depth}
use rocksqueue.Tenant.State.View.{Provisioned, pending, inflight, dlq, of_queue, depth_lem}
use rocksqueue.Tenant.Enqueue.Quota.{backlog}

-- The clock reaches the deadline at some test.
abbrev pub DrainReaches : {w : World} {f : F64} (deadline : ℕ) → List (DrainPoll w f) → Type 0
DrainReaches deadline [] = ⊥
DrainReaches deadline (poll ∷ polls) = (deadline ≤ poll.now) ⊎ DrainReaches deadline polls

-- What the others do in a round does not drop the tenant.
abbrev pub KeepsServed : (w : World) (f : F64) (tenant_id : Bytes) → DrainPoll w f → Type 0
KeepsServed w f tenant_id poll =
    (s : Server w f)
    → Provisioned w tenant_id s.registry
    → Provisioned w tenant_id (poll.others s).registry

-- The server after the others' turns in these rounds.
abbrev pub after_rounds : {w : World} {f : F64} → List (DrainPoll w f) → Server w f → Server w f
after_rounds [] s = s
after_rounds (poll ∷ polls) s = after_rounds polls (poll.others s)

-- The drain waited in the rounds `before` and no longer: before the deadline, with tasks left.
abbrev pub WaitedFor :
    {w : World} (ff : FaultFree w) {f : F64} (tenant_id queue : Bytes) (deadline : ℕ)
    (before : List (DrainPoll w f))
    → Server w f
    → Type 0
WaitedFor ff tenant_id queue deadline [] s = Unit
WaitedFor ff tenant_id queue deadline (poll ∷ before) s =
    (poll.now < deadline)
    × (0 < backlog ff tenant_id queue s.registry)
    × WaitedFor ff tenant_id queue deadline before (poll.others s)

-- How a drain of a queue ends that starts with the server `s`, in the round `poll`: the queue is
-- empty, or the deadline has passed and it is not, which is reported with the number of its tasks.
pub data DrainEnds {w : World} (ff : FaultFree w) {f : F64} (tenant_id queue : Bytes) (deadline : ℕ)
    (polls : List (DrainPoll w f)) (s : Server w f) (r : Run (Reply Drain × Server w f))
    : Type 0 where
  empty :
      (before : List (DrainPoll w f)) (poll : DrainPoll w f) (later : List (DrainPoll w f))
      → polls ≡ before ++ poll ∷ later
      → WaitedFor ff tenant_id queue deadline before s
      → backlog ff tenant_id queue (after_rounds before s).registry ≡ 0
      → r ≡ returns (reply drained, after_rounds before s)
      → DrainEnds ff tenant_id queue deadline polls s r
  late :
      (before : List (DrainPoll w f)) (poll : DrainPoll w f) (later : List (DrainPoll w f))
      → polls ≡ before ++ poll ∷ later
      → WaitedFor ff tenant_id queue deadline before s
      → deadline ≤ poll.now
      → 0 < backlog ff tenant_id queue (after_rounds before s).registry
      → r
        ≡ returns (
          reply (remaining (backlog ff tenant_id queue (after_rounds before s).registry % 2 ^ 64)),
          after_rounds before s,
        )
      → DrainEnds ff tenant_id queue deadline polls s r

one_more :
    {w : World} (ff : FaultFree w) {f : F64} (tenant_id queue : Bytes) (deadline : ℕ)
    (poll : DrainPoll w f) (polls : List (DrainPoll w f)) (s : Server w f)
    (r : Run (Reply Drain × Server w f))
    → poll.now < deadline
    → 0 < backlog ff tenant_id queue s.registry
    → DrainEnds ff tenant_id queue deadline polls (poll.others s) r
    → DrainEnds ff tenant_id queue deadline (poll ∷ polls) s r
one_more ff tenant_id queue deadline poll polls s r n m (empty before last later e h z run) =
    DrainEnds.empty (poll ∷ before) last later (ap (◌∷◌ poll) e) (n, m, h) z run
one_more ff tenant_id queue deadline poll polls s r n m (late before last later e h d z run) =
    DrainEnds.late (poll ∷ before) last later (ap (◌∷◌ poll) e) (n, m, h) d z run

module _ {w : World} (ff : FaultFree w) {f : F64} (tenant_id queue : Bytes) where
  abbrev waiting_in : Server w f → ℕ
  waiting_in s = length (of_queue queue (pending ff tenant_id s.registry))

  abbrev taken_in : Server w f → ℕ
  taken_in s = length (of_queue queue (inflight ff tenant_id s.registry))

  module _ (deadline : ℕ) (poll : DrainPoll w f) (polls : List (DrainPoll w f)) (s : Server w f)
      (p : Provisioned w tenant_id s.registry) where
    abbrev is_empty : Bool
    is_empty = (waiting_in s == 0) && (taken_in s == 0)

    asked :
        offload (depth w tenant_id queue) s
        ≡ returns (
          reply (waiting_in s, taken_in s, length (of_queue queue (dlq ff tenant_id s.registry))),
          s,
        )
    asked =
        offload_ok (depth w tenant_id queue) s _ s.registry
          (depth_lem ff tenant_id queue s.registry p)

    drain_done :
        is_empty ≡ true
        → drain_loop w tenant_id queue deadline (poll ∷ polls) s ≡ returns (reply drained, s)
    unfolding drain_loop
    drain_done h = handled _ asked (rw h refl)

    drain_late :
        is_empty ≡ false
        → leb deadline poll.now ≡ true
        → drain_loop w tenant_id queue deadline (poll ∷ polls) s
          ≡ returns (reply (remaining (backlog ff tenant_id queue s.registry % 2 ^ 64)), s)
    unfolding drain_loop
    drain_late h d = handled _ asked (rw h (rw d refl))

    drain_again :
        is_empty ≡ false
        → leb deadline poll.now ≡ false
        → drain_loop w tenant_id queue deadline (poll ∷ polls) s
          ≡ drain_loop w tenant_id queue deadline polls (poll.others s)
    unfolding drain_loop
    drain_again h d = handled _ asked (rw h (rw d refl))

  drain_loop_lem :
      (deadline : ℕ) (polls : List (DrainPoll w f)) (s : Server w f)
      → DrainReaches deadline polls
      → All (KeepsServed w f tenant_id) polls
      → Provisioned w tenant_id s.registry
      → DrainEnds ff tenant_id queue deadline polls s
          (drain_loop w tenant_id queue deadline polls s)
  drain_loop_lem deadline [] s h k p = absurd h
  drain_loop_lem deadline (poll ∷ polls) s h k p =
      elim (Bool-cases (is_empty deadline poll polls s p)) [
        | inl a ↦
            DrainEnds.empty [] poll polls refl tt (ground (arith, a))
              (drain_done deadline poll polls s p a)
        | inr a ↦ elim (Bool-cases (leb deadline poll.now)) [
          | inl b ↦
              DrainEnds.late [] poll polls refl tt (ground (arith, b)) (ground (arith, a))
                (drain_late deadline poll polls s p a b)
          | inr b ↦ rw (drain_again deadline poll polls s p a b) (
              one_more ff tenant_id queue deadline poll polls s _ (ground (arith, b))
                (ground (arith, a))
                (drain_loop_lem deadline polls (poll.others s) (later h b) k.1 (k.0 s p)))
        ]
      ]
    where
      later :
          (deadline ≤ poll.now) ⊎ DrainReaches deadline polls
          → leb deadline poll.now ≡ false
          → DrainReaches deadline polls
      later (inl h) b = absurd (ground arith)
      later (inr h) b = h

-- On a database where no call fails, a drain whose clock reaches its deadline, at least a second
-- after it starts, and whose tenant the others do not drop, pauses the tenant and ends, after rounds
-- in each of which there were tasks and the deadline had not come. In its last round either the
-- first of the service's queues has no pending and no inflight task of the tenant, and the reply
-- says so, or the deadline has passed, and the reply is the number of its tasks, which is not zero.
pub drain_tenant-ends :
    {w : World} (ff : FaultFree w) {f : F64} (tenant_id : Bytes) (timeout_secs start : ℕ)
    (polls : List (DrainPoll w f)) (s : Server w f)
    → Provisioned w tenant_id s.registry
    → DrainReaches (start + max timeout_secs 1 * 1_000_000_000) polls
    → All (KeepsServed w f tenant_id) polls
    → DrainEnds ff tenant_id
        (first_queue s.queues)
        (start + max timeout_secs 1 * 1_000_000_000)
        polls
        (record s { scheduler = set_paused tenant_id true s.scheduler })
        (drain_tenant w tenant_id timeout_secs start polls s)
unfolding drain_tenant
drain_tenant-ends ff tenant_id timeout_secs start polls s p h k =
    drain_loop_lem ff tenant_id (first_queue s.queues) _ polls _ h k p

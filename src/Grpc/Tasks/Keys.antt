-- ===== src/Grpc/Tasks/Keys.antt =====
-- The keys that a dequeue hands out are the keys that an acknowledgement takes.
use rocksqueue.Base.{
  ℕ, ◌+◌, ◌≡◌, refl, ap, sym, ◌∙◌, some, List, [], ◌∷◌, map, length, length-map, ok,
}
use rocksqueue.Bytes.{Bytes}
use rocksqueue.Float.{F64}
use rocksqueue.Grpc.Handler.{Server, reply, handled, offload_ok, queue_or_default}
use rocksqueue.Grpc.Tasks.{
  Hex, ReadsHex, DequeuedTask, dequeued_task, decode_ack_keys, ack_batch, dequeue_tasks,
  limit_or_default,
}
use rocksqueue.Grpc.Tasks.Errors.{policy_of-known}
use rocksqueue.Policy.{NamespacePolicy}
use rocksqueue.Rocks.World.{World, FaultFree}
use rocksqueue.Run.{returns}
use rocksqueue.Stats.{record_ack_count}
use rocksqueue.Task.{Task}
use rocksqueue.Tenant.Settle
use rocksqueue.Tenant.Settle.Within
use rocksqueue.Tenant.Settle.Within.{within_acked}
use rocksqueue.Tenant.Lifecycle.{get_policy}
use rocksqueue.Tenant.Places.{IsWellPlaced}
use rocksqueue.Tenant.State.{Registry}
use rocksqueue.Tenant.State.View.{pending, inflight, dlq}

-- The keys that a client sends back for what it was handed.
abbrev pub handed_back : List DequeuedTask → List Bytes
handed_back tasks = map (λ t. t.ack_key) tasks

pub decode-handed_back :
    (w : World) (hex : Hex) (h : ReadsHex hex) (dequeued : List (Bytes × Task))
    → decode_ack_keys hex (handed_back (map (dequeued_task w hex) dequeued))
      ≡ some (map (λ e. e.0) dequeued)
unfolding decode_ack_keys dequeued_task
decode-handed_back w hex h [] = refl
decode-handed_back w hex h ((k, task) ∷ l) =
    rw (decode_ack_keys, h.decode-encode k) (rw (decode-handed_back w hex h l) refl)

-- What a batch of acknowledgements does on `r` for the tasks handed out between `s` and `r`, if
-- there is any.
pub data AckedBack {w : World} (ff : FaultFree w) {f : F64} (hex : Hex) (tenant_id : Bytes)
    (tasks : List DequeuedTask) (s r : Server w f) : Type 0 where
  nothing : length tasks ≡ 0 → AckedBack ff hex tenant_id tasks s r
  all :
      (q : Server w f)
      → ack_batch w hex tenant_id (handed_back tasks) r ≡ returns (reply (length tasks), q)
      → inflight ff tenant_id q.registry ≡ inflight ff tenant_id s.registry
      → pending ff tenant_id q.registry ≡ pending ff tenant_id r.registry
      → dlq ff tenant_id q.registry ≡ dlq ff tenant_id r.registry
      → q.collector ≡ record_ack_count tenant_id (length tasks) 0 s.collector
      → AckedBack ff hex tenant_id tasks s r

module _ {w : World} (ff : FaultFree w) {f : F64} (hex : Hex) (h : ReadsHex hex)
    (tenant_id : Bytes) where
  acked_back :
      (dequeued : List (Bytes × Task)) (s : Server w f) (r : Registry w)
      → Within.AckedBack ff tenant_id dequeued s.registry r
      → AckedBack ff hex tenant_id
          (map (dequeued_task w hex) dequeued)
          s
          (record s { registry = r })
  unfolding ack_batch
  acked_back [] s r a = nothing refl
  acked_back (e ∷ l) s r a =
      let keys = map (λ x. x.0) (e ∷ l) in
      let n = length (map (dequeued_task w hex) (e ∷ l)) in
      let q = record s {
        registry = (Settle.ack_batch w tenant_id keys r).1;
        collector = record_ack_count tenant_id n 0 s.collector;
      } in
      let counted : (Settle.ack_batch w tenant_id keys r).0 ≡ ok n =
        a.all_counted ∙ ap ok (sym (length-map (dequeued_task w hex) (e ∷ l))) in
      all q
        (rw (decode-handed_back w hex h (e ∷ l)) (
          handled _
            (offload_ok (Settle.ack_batch w tenant_id keys) (record s { registry = r }) n q.registry
              (λ i. (counted i, q.registry)))
            refl))
        a.inflight_back a.pending_kept a.dlq_kept refl

  -- On a database where no call fails, for a tenant with a policy and with no key in two places, a
  -- dequeue is answered by a list of tasks, of which there are as many as inflight has grown by. If
  -- there is any, and the client sends the keys of that answer back, then the reply is the number of the tasks,
  -- the inflight family is what it was before the dequeue, pending and the DLQ stay as
  -- the dequeue left them, and that number is what is counted for the tenant.
  pub ack-handed_back :
      (queue : Bytes) (limit : ℕ) (clock : ℕ → ℕ) (policy : NamespacePolicy) (s : Server w f)
      → IsWellPlaced ff tenant_id s.registry
      → get_policy w s.registry tenant_id ≡ some policy
      → (tasks : List DequeuedTask) × (r : Server w f) × (dequeue_tasks w hex tenant_id queue limit
            clock s
          ≡ returns (reply tasks, r))
        × (length tasks + length (inflight ff tenant_id s.registry)
            ≡ length (inflight ff tenant_id r.registry))
        × AckedBack ff hex tenant_id tasks s r
  unfolding dequeue_tasks
  ack-handed_back queue limit clock policy s p g =
      let d =
        within_acked ff tenant_id (queue_or_default queue) clock (limit_or_default limit) 60_000
          policy.max_inflight s.registry p in
      (
        map (dequeued_task w hex) d.0,
        record s { registry = d.1 },
        handled _ (policy_of-known tenant_id s policy g)
            (handled _ (offload_ok _ s d.0 d.1 d.2) refl),
        ap (λ n. n + length (inflight ff tenant_id s.registry))
              (length-map (dequeued_task w hex) d.0)
            ∙ d.3.all_moved,
        acked_back d.0 s d.1 d.3,
      )

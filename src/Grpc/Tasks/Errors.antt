-- ===== src/Grpc/Tasks/Errors.antt =====
-- Requests that the queue handlers refuse, and what they leave.
use rocksqueue.Base.{
  ℕ, ◌+◌, ◌<◌, ◌≡◌, refl, none, some, List, [], ◌∷◌, length, ◌++◌, arith, Option-cases, inl, inr,
}
use rocksqueue.Bytes.{Bytes}
use rocksqueue.Float.{F64}
use rocksqueue.Grpc.Handler.{
  Server, invalid_argument, resource_exhausted, reply, status, queue_error, queue_or_default,
  offload_err, handled, refused,
}
use rocksqueue.Grpc.Tasks.{
  Hex, policy_of, enqueue_batch, ack_batch, ack_task, nack_task, decode_ack_key, decode_ack_keys,
}
use rocksqueue.Policy.{NamespacePolicy, reject}
use rocksqueue.Rocks.World.{World, FaultFree}
use rocksqueue.Run.{returns}
use rocksqueue.Tenant.Enqueue.{Times, enqueue_batch_sync}
use rocksqueue.Tenant.Enqueue.Append.{locked}
use rocksqueue.Tenant.Enqueue.Quota.{backlog, enqueue-reject_over}
use rocksqueue.Tenant.Lifecycle.{get_policy}
use rocksqueue.Tenant.State.View.{Provisioned}

-- A batch of keys is refused when one of them cannot be decoded.
one_undecodable :
    (hex : Hex) (before after : List Bytes) (k : Bytes)
    → hex.decode k ≡ none
    → decode_ack_keys hex (before ++ k ∷ after) ≡ none
unfolding decode_ack_keys
one_undecodable hex [] after k h = rw h refl
one_undecodable hex (x ∷ before) after k h = elim (Option-cases (hex.decode x)) [
  | inl e ↦ rw (decode_ack_keys, e) refl
  | inr (y, e) ↦ rw (decode_ack_keys, e) (rw (one_undecodable hex before after k h) refl)
]

module _ {w : World} {f : F64} (tenant_id : Bytes) (s : Server w f) where
  pub policy_of-known :
      (p : NamespacePolicy)
      → get_policy w s.registry tenant_id ≡ some p
      → policy_of w tenant_id s ≡ returns (reply p, s)
  unfolding policy_of
  policy_of-known p h = rw h refl

  -- An acknowledgement or a return of a key that is not hexadecimal, and a batch of acknowledgements
  -- with such a key anywhere among its keys, are answered by `invalid_argument`, and nothing
  -- changes: the batch's other keys are not acknowledged either.
  pub undecodable_key :
      (hex : Hex) (before after : List Bytes) (k : Bytes) (now : ℕ)
      → hex.decode k ≡ none
      → (ack_task w hex tenant_id k s ≡ returns (status invalid_argument, s))
        × (nack_task w hex tenant_id k now s ≡ returns (status invalid_argument, s))
        × (ack_batch w hex tenant_id (before ++ k ∷ after) s ≡ returns (status invalid_argument, s))
  unfolding ack_batch ack_task nack_task decode_ack_key
  undecodable_key hex before after k now h =
      (rw h refl, rw h refl, batch before (one_undecodable hex before after k h))
    where
      batch :
          (before : List Bytes)
          → decode_ack_keys hex (before ++ k ∷ after) ≡ none
          → ack_batch w hex tenant_id (before ++ k ∷ after) s ≡ returns (status invalid_argument, s)
      batch [] e = rw e refl
      batch (x ∷ xs) e = rw e refl

module _ {w : World} (ff : FaultFree w) {f : F64} (tenant_id : Bytes) where
  -- On a database where no call fails, a batch that goes over the quota of a tenant with the
  -- Reject policy is answered by `resource_exhausted`: nothing is counted, and of the registry only the
  -- map of locks may have changed.
  pub over_quota :
      (queue : Bytes) (ps : List (Bytes × Bytes)) (times : Times w) (policy : NamespacePolicy)
      (quota : ℕ) (s : Server w f)
      → 0 < length ps
      → Provisioned w tenant_id s.registry
      → get_policy w s.registry tenant_id ≡ some policy
      → policy.backlog_quota ≡ some quota
      → policy.backlog_policy ≡ reject
      → quota < backlog ff tenant_id (queue_or_default queue) s.registry + length ps
      → enqueue_batch w tenant_id queue ps times s
        ≡ returns (
          status resource_exhausted,
          record s { registry = locked w tenant_id (queue_or_default queue) s.registry },
        )
  unfolding enqueue_batch queue_error
  over_quota queue [] times policy quota s n p g has is h = absurd (omega arith)
  over_quota queue (x ∷ ps) times policy quota s n p g has is h =
      handled _ (policy_of-known tenant_id s policy g) (
        refused _ (
          offload_err
            (enqueue_batch_sync w tenant_id (queue_or_default queue) (x ∷ ps) policy times) s _ _
            (enqueue-reject_over ff tenant_id (queue_or_default queue) (x ∷ ps) policy times quota
              s.registry p has is h)))

-- ===== src/Grpc/Tasks/Counted.antt =====
-- What the handlers of acknowledgements and returns count.
use rocksqueue.Base.{◌≡◌, refl, none, some, ok, ℕ, ◌+◌, ◌%◌, ◌^◌, false, ◌∙◌, ap, if◌then◌else◌}
use rocksqueue.Bytes.{Bytes, beq}
use rocksqueue.Float.{F64}
use rocksqueue.Grpc.Handler.{Server, reply, handled, offload_ok}
use rocksqueue.Grpc.Tasks.{Hex, ReadsHex, ack_task, nack_task, decode_ack_key}
use rocksqueue.Rocks.Table.{lookup}
use rocksqueue.Rocks.World.{World, FaultFree}
use rocksqueue.Run.{returns}
use rocksqueue.Stats.{TenantStatsState, record_nack, count_with}
use rocksqueue.Dash.{get, get-alter}
use rocksqueue.Tenant.Settle
use rocksqueue.Tenant.Settle.Single.{ack_lem, is_found}
use rocksqueue.Tenant.Settle.Nacks.{nack_absent}
use rocksqueue.Tenant.State.View.{Provisioned, inflight, pending, dlq}

module _ {w : World} (ff : FaultFree w) {f : F64} (hex : Hex) (back : ReadsHex hex)
    (tenant_id key : Bytes) (s : Server w f) (p : Provisioned w tenant_id s.registry)
    (absent : lookup key (inflight ff tenant_id s.registry) ≡ none) (st : TenantStatsState f)
    (counted : get tenant_id s.collector ≡ some st) where
  -- On a database where no call fails, for a key that is not inflight and a tenant whose statistics are
  -- kept, an acknowledgement replies and counts nothing, but a return leaves the registry as it
  -- is, replies, and adds one to both of the tenant's counts of returned tasks and to no other's.
  pub absent_key :
      (now : ℕ)
      → ((r : Server w f) × (ack_task w hex tenant_id (hex.encode key) s ≡ returns (reply tt, r))
          × (r.collector ≡ s.collector)
          × (pending ff tenant_id r.registry ≡ pending ff tenant_id s.registry)
          × (dlq ff tenant_id r.registry ≡ dlq ff tenant_id s.registry))
        × ((r : Server w f) × (nack_task w hex tenant_id (hex.encode key) now s
              ≡ returns (reply tt, r))
            × (r.registry ≡ s.registry)
            × ((j : Bytes)
                → get j r.collector ≡ (
                    if beq tenant_id j
                    then some (record st {
                      counters = record st.counters {
                        nack_count = (st.counters.nack_count + 1) % 2 ^ 64;
                        total_nacked = (st.counters.total_nacked + 1) % 2 ^ 64;
                      };
                    })
                    else get j s.collector)))
  unfolding ack_task nack_task decode_ack_key record_nack count_with
  absent_key now =
      let a = ack_lem ff tenant_id key s.registry p in
      let r : Server w f = record s { registry = (Settle.ack w tenant_id key s.registry).1 } in
      let not_found : (Settle.ack w tenant_id key s.registry).0 ≡ ok false =
        a.0 ∙ ap (λ o. ok (is_found o)) absent in
      (
        (
          r,
          rw (back.decode-encode key) (
              handled _
                (offload_ok (Settle.ack w tenant_id key) s false r.registry
                  (λ i. (not_found i, r.registry)))
                refl),
          refl,
          a.2,
          a.3,
        ),
        (
          record s { collector = record_nack tenant_id s.collector },
          rw (back.decode-encode key) (
              handled _
                (offload_ok (Settle.nack w tenant_id key now) s tt s.registry
                  (nack_absent ff tenant_id key now s.registry p absent))
                refl),
          refl,
          λ j. get-alter tenant_id j _ st s.collector counted,
        ),
      )

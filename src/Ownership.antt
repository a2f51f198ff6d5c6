-- ===== src/Ownership.antt =====
-- ownership.rs: the map of the tenants to the nodes that own them.
use rocksqueue.Base.{Bool, true, Option, none, some}
use rocksqueue.Bytes.{Bytes, beq}
use rocksqueue.Dash.{Dash, get, insert}

unfoldable pub assign_owner : (tenant node : Bytes) → Dash Bytes → Dash Bytes
assign_owner tenant node m = insert tenant node m

unfoldable pub owner_of : (tenant : Bytes) → Dash Bytes → Option Bytes
owner_of tenant m = get tenant m

-- A tenant without an owner counts as local.
unfoldable pub is_local : (tenant local_id : Bytes) → Dash Bytes → Bool
is_local tenant local_id m = elim (get tenant m) [ none ↦ true | some node ↦ beq node local_id ]

-- ===== src/Tenant/Names.antt =====
-- tenant.rs: the names of column families, of locks, and of the keys of `__system__`.
pub mod Distinct
use rocksqueue.Base.{List, [], ◌∷◌, ◌++◌}
use rocksqueue.Bytes.{Bytes}

-- "__pending"
abbrev pub pending_suffix : Bytes
pending_suffix = b'_' ∷ b'_' ∷ b'p' ∷ b'e' ∷ b'n' ∷ b'd' ∷ b'i' ∷ b'n' ∷ b'g' ∷ []

-- "__inflight"
abbrev pub inflight_suffix : Bytes
inflight_suffix = b'_' ∷ b'_' ∷ b'i' ∷ b'n' ∷ b'f' ∷ b'l' ∷ b'i' ∷ b'g' ∷ b'h' ∷ b't' ∷ []

-- "__dlq"
abbrev pub dlq_suffix : Bytes
dlq_suffix = b'_' ∷ b'_' ∷ b'd' ∷ b'l' ∷ b'q' ∷ []

unfoldable pub cf_pending : Bytes → Bytes
cf_pending tenant = tenant ++ pending_suffix

unfoldable pub cf_inflight : Bytes → Bytes
cf_inflight tenant = tenant ++ inflight_suffix

unfoldable pub cf_dlq : Bytes → Bytes
cf_dlq tenant = tenant ++ dlq_suffix

-- "__system__"
unfoldable pub cf_system : Bytes
cf_system = b'_' ∷ b'_' ∷ b's' ∷ b'y' ∷ b's' ∷ b't' ∷ b'e' ∷ b'm' ∷ b'_' ∷ b'_' ∷ []

-- "tenant:"
abbrev pub tenant_meta_prefix : Bytes
tenant_meta_prefix = b't' ∷ b'e' ∷ b'n' ∷ b'a' ∷ b'n' ∷ b't' ∷ b':' ∷ []

unfoldable pub meta_key : Bytes → Bytes
meta_key tenant = tenant_meta_prefix ++ tenant

-- "{tenant}/"
unfoldable pub lock_prefix : Bytes → Bytes
lock_prefix tenant = tenant ++ b'/' ∷ []

-- "{tenant}/{queue}"
unfoldable pub lock_name : Bytes → Bytes → Bytes
lock_name tenant queue = tenant ++ b'/' ∷ queue

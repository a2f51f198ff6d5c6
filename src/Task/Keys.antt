-- ===== src/Task/Keys.antt =====
-- task.rs: `encode_key`, `queue_prefix` and `decode_key_seq`, by `u64::to_be_bytes` and
-- `u64::from_be_bytes` of std.
pub mod Laws
use rocksqueue.Base.{
  ℕ, zero, suc, ◌+◌, ◌-◌, ◌*◌, ◌/◌, ◌%◌, ◌^◌, Bool, true, false, Option, none, some, List, [], ◌∷◌,
  ◌++◌, ltb, length, drop, if◌then◌else◌,
}
use rocksqueue.Bytes.{Bytes}

-- `n` bytes, the most significant first; `x.to_be_bytes()` at `n = 8`.
unfoldable pub be_bytes : ℕ → ℕ → Bytes
be_bytes zero x = []
be_bytes (suc n) x = (x / 256 ^ n) ∷ be_bytes n (x % 256 ^ n)

unfoldable pub from_be_bytes : Bytes → ℕ
from_be_bytes [] = 0
from_be_bytes (b ∷ bs) = b * 256 ^ length bs + from_be_bytes bs

-- `seq` is a `u64`.
unfoldable pub encode_key : Bytes → ℕ → Bytes
encode_key queue seq = queue ++ 0 ∷ be_bytes 8 seq

unfoldable pub queue_prefix : Bytes → Bytes
queue_prefix queue = queue ++ 0 ∷ []

-- `key.get(key.len().checked_sub(8)?..)?.try_into().ok()?`, then `from_be_bytes`.
unfoldable pub decode_key_seq : Bytes → Option ℕ
unfolding from_be_bytes
decode_key_seq key =
    if ltb (length key) 8 then none else some (from_be_bytes (drop (length key - 8) key))

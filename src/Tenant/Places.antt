-- ===== src/Tenant/Places.antt =====
-- Where the records of a tenant are: in pending, inflight or the DLQ, under which keys.
pub mod Tables
pub mod Moves
pub mod Kept
pub mod Settled
pub mod Fresh
pub mod Steps
pub mod Reach
use rocksqueue.Base.{ℕ, ◌≡◌, Bool, true, false, not, ◌&&◌, ◌||◌, none, some, List, [], ◌∷◌, ltb}
use rocksqueue.Bytes.{Bytes, beq}
use rocksqueue.Rocks.Table.{Table}
use rocksqueue.Rocks.World.{World, FaultFree}
use rocksqueue.Task.Keys.{decode_key_seq}
use rocksqueue.Tenant.State.{Registry}
use rocksqueue.Tenant.State.View.{Provisioned, pending, inflight, dlq}

-- The table has a record under `k`.
unfoldable pub present : Bytes → Table → Bool
present k [] = false
present k ((j, v) ∷ t) = beq j k || present k t

-- The key was made for a sequence number below `seq`.
unfoldable pub numbered : ℕ → Bytes → Bool
numbered seq k = elim (decode_key_seq k) [ none ↦ false | some n ↦ ltb n seq ]

-- At most one of three is true, and `b` is if any is.
abbrev pub single : (p i d b : Bool) → Bool
single p i d b = not (p && i) && not (p && d) && not (i && d) && (not (p || i || d) || b)

-- No key has records in two of the tenant's column families, and every key that has one was made
-- for a number that the counter has passed.
pub record IsWellPlaced {w : World} (ff : FaultFree w) (tenant : Bytes) (s : Registry w)
    : Type 0 where
  pub provisioned : Provisioned w tenant s
  pub placed :
      (k : Bytes)
      → single
          (present k (pending ff tenant s))
          (present k (inflight ff tenant s))
          (present k (dlq ff tenant s))
          (numbered s.seq k)
        ≡ true

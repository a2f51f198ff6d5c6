-- ===== src/Memory.antt =====
-- A database in memory, which meets every law that the theorems ask of a database, and a small
-- registry over it: the theorems' hypotheses hold there.
use rocksqueue.Base.{
  ◌≡◌, refl, sym, ap, Bool, false, List, [], ◌∷◌, ◌++◌, map, length, take, drop, Result, ok, err,
  rocks_db, serialization, Exec, if◌then◌else◌, ◌||◌, append-nil, take-length-append,
  drop-length-append,
}
use rocksqueue.Bytes.{Bytes, beq}
use rocksqueue.Rocks.Table.{Table, Batch, apply, lookup, prefixed, IsSorted}
use rocksqueue.Rocks.Table.Lookup.{apply-IsSorted, apply-append}
use rocksqueue.Rocks.World.{World, FaultFree}
use rocksqueue.Task.{Task}

-- The column families that exist, and every write to them in order.
pub record Memory : Type 0 where
  pub names : List Bytes
  pub log : Batch

unfoldable pub has_name : List Bytes → Bytes → Bool
has_name [] n = false
has_name (m ∷ ms) n = beq m n || has_name ms n

unfoldable pub contents : Memory → Bytes → Table
contents db cf = apply cf db.log []

unfoldable pub text : Bytes → Bytes → Bytes
text bs rest = length bs ∷ (bs ++ rest)

-- A text is written behind its length.
unfoldable pub encode_task : Task → Bytes
encode_task t =
    text t.id (text t.queue (text t.payload (t.enqueued_at ∷ t.attempts ∷ t.deadline ∷ [])))

decode_end : (id queue payload : Bytes) → Bytes → Result Task
decode_end id queue payload (e ∷ a ∷ d ∷ []) = ok (record {
  id = id;
  queue = queue;
  payload = payload;
  enqueued_at = e;
  attempts = a;
  deadline = d;
})
decode_end id queue payload _ = err (serialization 0)

decode_payload : (id queue : Bytes) → Bytes → Result Task
decode_payload id queue [] = err (serialization 0)
decode_payload id queue (n ∷ bs) = decode_end id queue (take n bs) (drop n bs)

decode_queue : (id : Bytes) → Bytes → Result Task
decode_queue id [] = err (serialization 0)
decode_queue id (n ∷ bs) = decode_payload id (take n bs) (drop n bs)

unfoldable pub decode_task : Bytes → Result Task
unfolding decode_queue decode_payload decode_end
decode_task [] = err (serialization 0)
decode_task (n ∷ bs) = decode_queue (take n bs) (drop n bs)

pub decode-encode : (t : Task) → decode_task (encode_task t) ≡ ok t
unfolding decode_task encode_task text
decode-encode t = simp (take-length-append, drop-length-append)

abbrev pub create : Bytes → Exec Memory (Unit {0})
create n db =
    if has_name db.names n
    then (err (rocks_db 1), db)
    else (ok tt, record db { names = n ∷ db.names })

abbrev pub memory : World
memory = record {
  Db = Memory;
  has_cf = λ db n. has_name db.names n;
  create_cf = create;
  drop_cf = λ n db. (err (rocks_db 2), db);
  get_cf = λ db cf k. ok (lookup k (contents db cf));
  scan_prefix = λ db cf p. map ok (prefixed p (contents db cf));
  scan_from = λ db cf p. map ok (prefixed p (contents db cf));
  scan_all = λ db cf. map ok (contents db cf);
  write = λ b db. (ok tt, record db { log = db.log ++ b });
  serialize = λ t. ok (encode_task t);
  deserialize = decode_task;
  serialize_policy = λ p. ok [];
  deserialize_policy = λ bs. err (serialization 1);
  decimal = λ n. n ∷ [];
  from_utf8_lossy = λ bs. bs;
}

pub contents-IsSorted : (db : Memory) (cf : Bytes) → IsSorted (contents db cf)
unfolding contents
contents-IsSorted db cf = apply-IsSorted cf db.log [] tt

pub contents-write :
    (db : Memory) (b : Batch) (cf : Bytes)
    → contents (record db { log = db.log ++ b }) cf ≡ apply cf b (contents db cf)
unfolding contents
contents-write db b cf = apply-append cf db.log b []

unfoldable pub fault_free : FaultFree memory
fault_free = record {
  table = contents;
  table_sorted = contents-IsSorted;
  get_cf_lem = λ db cf k h. refl;
  scan_prefix_lem = λ db cf p h. refl;
  scan_from_lem =
      λ db cf p h. ([], ap (map ok) (sym (append-nil (prefixed p (contents db cf)))), tt);
  scan_all_lem = λ db cf h. refl;
  write_ok = λ db b k. refl;
  has_cf-write = λ db b cf. refl;
  table-write = λ db b cf k. contents-write db b cf;
  encode = encode_task;
  serialize_lem = λ t. refl;
  deserialize-encode = decode-encode;
}

-- ===== src/Examples/Keys.antt =====
-- The theorems on keys at concrete keys.
use rocksqueue.Base.{◌≡◌, ◌↔◌, true, refl, some, Ordering, arith, [], ◌∷◌}
use rocksqueue.Bytes.{Bytes, compare_bytes, starts_with, contains}
use rocksqueue.Task.Keys.{encode_key, decode_key_seq, queue_prefix}
use rocksqueue.Task.Keys.Laws.{
  compare-encode_key, decode_key_seq-encode_key, starts_with-encode_key,
}

compare-encode_key_example :
    compare_bytes (encode_key (b'q' ∷ []) 255) (encode_key (b'q' ∷ []) 256) ≡ Ordering.lt
compare-encode_key_example = compare-encode_key (b'q' ∷ []) 255 256 (omega arith) (omega arith)

decode_key_seq-encode_key_example : decode_key_seq (encode_key (b'q' ∷ []) 70_000) ≡ some 70_000
decode_key_seq-encode_key_example = decode_key_seq-encode_key (b'q' ∷ []) 70_000 (omega arith)

abbrev short : Bytes
short = b'q' ∷ []

abbrev long : Bytes
long = b'q' ∷ b'r' ∷ []

starts_with-encode_key_example :
    (starts_with (queue_prefix short) (encode_key long 5) ≡ true) ↔ (short ≡ long)
unfolding contains
starts_with-encode_key_example = starts_with-encode_key short long 5 refl refl

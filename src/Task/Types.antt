-- ===== src/Task/Types.antt =====
-- The record of task.rs. Integers are natural numbers below their width's bound; a text is its
-- bytes.
use rocksqueue.Base.{ℕ, ◌^◌, ◌-◌, ◌++◌, ◌∷◌, []}
use rocksqueue.Bytes.{Bytes}

pub record Task : Type 0 where
  pub id : Bytes
  pub queue : Bytes
  pub payload : Bytes
  pub enqueued_at : ℕ
  pub attempts : ℕ
  pub deadline : ℕ

abbrev pub u32_max : ℕ
u32_max = 2 ^ 32 - 1

-- "corrupt-"
abbrev pub corrupt_prefix : Bytes
corrupt_prefix = b'c' ∷ b'o' ∷ b'r' ∷ b'r' ∷ b'u' ∷ b'p' ∷ b't' ∷ b'-' ∷ []

-- `Task::poison`, with `now` the reading of the clock and `decimal` the text of a number.
unfoldable pub poison : (decimal : ℕ → Bytes) (queue raw : Bytes) (now : ℕ) → Task
poison decimal queue raw now = record {
  id = corrupt_prefix ++ decimal now;
  queue = queue;
  payload = raw;
  enqueued_at = now;
  attempts = u32_max;
  deadline = 0;
}

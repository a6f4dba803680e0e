-- ===== src/BufferQueue.antt =====
-- server/bufque.go: bytes buffered for each pair of application and client.
pub mod Conservation
pub mod Spec
use container_cloudlet.Common.{
  ℕ, String, ◌≡◌, ◌&&◌, Bool, true, Option, none, some, List, [], ◌∷◌, ◌++◌, arith, ◌↔◌, Eq, ◌==◌,
  length, take, drop, replicate, Map, lookup, insert, delete, string_eq, str_iff,
}

pub record BufferQueueKey : Type 0 where
  pub app_id : String
  pub client_id : String

abbrev pub key_beq : BufferQueueKey → BufferQueueKey → Bool
key_beq k j = (k.app_id == j.app_id) && (k.client_id == j.client_id)

pub key_beq_iff : (k j : BufferQueueKey) → (key_beq k j ≡ true) ↔ (k ≡ j)
key_beq_iff k j = ground (arith, str_iff k.app_id j.app_id, str_iff k.client_id j.client_id)

instance abbrev pub key_eq : Eq BufferQueueKey
key_eq = record { equal = key_beq; equal_iff = key_beq_iff }

pub record BufferQueue : Type 0 where
  pub bufs : Map BufferQueueKey (List ℕ)

unfoldable pub new_buffer_queue : BufferQueue
new_buffer_queue = record { bufs = [] }

-- A map yields the nil slice for a missing key.
abbrev pub or_nil : Option (List ℕ) → List ℕ
or_nil none = []
or_nil (some b) = b

abbrev pub buffered : BufferQueue → BufferQueueKey → List ℕ
buffered q k = or_nil (lookup k q.bufs)

unfoldable pub add : BufferQueue → BufferQueueKey → List ℕ → BufferQueue
add q k b = record { bufs = insert k (buffered q k ++ b) q.bufs }

-- `copy(dst, src)` overwrites as many bytes as both have.
unfoldable pub copy : List ℕ → List ℕ → List ℕ
copy dst src = take (length dst) src ++ drop (length src) dst

-- `remove` before its lock: the length of the result.
unfoldable pub remove_size : BufferQueue → BufferQueueKey → ℕ
remove_size q k = length (buffered q k)

-- `remove` under its lock, with the length that was read before.
unfoldable pub remove_locked : BufferQueue → BufferQueueKey → ℕ → List ℕ × BufferQueue
unfolding copy
remove_locked q k n = (copy (replicate n 0) (buffered q k), record { bufs = delete k q.bufs })

-- `remove` with nothing in between.
unfoldable pub remove : BufferQueue → BufferQueueKey → List ℕ × BufferQueue
unfolding remove_size remove_locked
remove q k = remove_locked q k (remove_size q k)

-- ===== src/BufferQueue/Conservation.antt =====
-- The calls of server/bufque.go in a row, and a call that overlaps with another.
use mathlib.Core.List.{append-nil, append_assoc}
use container_cloudlet.Common.{
  ℕ, zero, suc, ◌≤◌, ◌≡◌, refl, sym, ap, ◌∙◌, List, [], ◌∷◌, ◌++◌, arith, ◌==◌, if◌then◌else◌,
  length, drop, replicate, length-replicate, take-length_le, insert, lookup-insert, lookup-delete,
  take-append-length, length-append,
}
use container_cloudlet.BufferQueue.{
  BufferQueue, BufferQueueKey, key_eq, key_beq_iff, buffered, add, copy, remove_size, remove_locked,
  remove,
}

-- A call of the queue by a user who sees its result.
pub data Call : Type 0 where
  adds : BufferQueueKey → List ℕ → Call
  removes : BufferQueueKey → Call

unfoldable pub after : BufferQueue → Call → BufferQueue
after q (adds k b) = add q k b
after q (removes k) = (remove q k).1

unfoldable pub after_all : BufferQueue → List Call → BufferQueue
after_all q [] = q
after_all q (c ∷ cs) = after_all (after q c) cs

-- What a call hands to the reader of `k`.
unfoldable pub handed : BufferQueueKey → BufferQueue → Call → List ℕ
handed k q (adds j b) = []
handed k q (removes j) = if j == k then (remove q j).0 else []

unfoldable pub handed_all : BufferQueueKey → BufferQueue → List Call → List ℕ
handed_all k q [] = []
handed_all k q (c ∷ cs) = handed k q c ++ handed_all k (after q c) cs

-- What a call adds for `k`.
unfoldable pub given : BufferQueueKey → Call → List ℕ
given k (adds j b) = if j == k then b else []
given k (removes j) = []

unfoldable pub given_all : BufferQueueKey → List Call → List ℕ
given_all k [] = []
given_all k (c ∷ cs) = given k c ++ given_all k cs

drop-replicate_long : (m n : ℕ) → n ≤ m → drop m (replicate {A = ℕ} n 0) ≡ []
drop-replicate_long zero zero h = refl
drop-replicate_long zero (suc n) h = elim h [ ]
drop-replicate_long (suc m) zero h = refl
drop-replicate_long (suc m) (suc n) h = drop-replicate_long m n (omega arith)

drop-replicate : (n : ℕ) → drop n (replicate {A = ℕ} n 0) ≡ []
drop-replicate n = drop-replicate_long n n (omega arith)

-- `make` of the length of the source, then `copy`: the source itself.
pub copy_exact : (n : ℕ) (xs : List ℕ) → length xs ≡ n → copy (replicate n 0) xs ≡ xs
unfolding copy
copy_exact n xs h =
    rw (h, length-replicate n zero, take-length_le n xs (omega arith), drop-replicate n)
      (append-nil xs)

copy_short : (xs ys : List ℕ) → copy (replicate (length xs) 0) (xs ++ ys) ≡ xs
unfolding copy
copy_short xs ys =
    rw
      (
        length-replicate (length xs) zero,
        take-append-length xs ys,
        drop-replicate_long (length (xs ++ ys)) (length xs)
            (omega (arith, length-append {0} xs ys)),
      )
      (append-nil xs)

step_conserves :
    (k : BufferQueueKey) (q : BufferQueue) (c : Call)
    → handed k q c ++ buffered (after q c) k ≡ buffered q k ++ given k c
unfolding handed after given add remove remove_locked remove_size
step_conserves k q (adds j b) = ground (
  arith,
  lookup-insert j k (buffered q j ++ b) q.bufs,
  key_beq_iff j k,
  append-nil (buffered q k),
)
step_conserves k q (removes j) = ground (
  arith,
  lookup-delete j k q.bufs,
  key_beq_iff j k,
  append-nil (buffered q k),
  copy_exact (length (buffered q j)) (buffered q j),
)

-- Whatever calls follow one another, the bytes that the reader of a key was handed, followed by
-- those that the queue holds for it at the end, are those that it held at the start, followed by
-- all that was added under that key, in order.
pub calls_conserve :
    (k : BufferQueueKey) (q : BufferQueue) (cs : List Call)
    → handed_all k q cs ++ buffered (after_all q cs) k ≡ buffered q k ++ given_all k cs
unfolding handed_all after_all given_all
calls_conserve k q [] = sym (append-nil (buffered q k))
calls_conserve k q (c ∷ cs) =
    append_assoc (handed k q c) (handed_all k (after q c) cs)
      (buffered (after_all (after q c) cs) k)
    ∙ ap (◌++◌ (handed k q c)) (calls_conserve k (after q c) cs)
    ∙ sym (append_assoc (handed k q c) (buffered (after q c) k) (given_all k cs))
    ∙ ap (λ (xs : List ℕ). xs ++ given_all k cs) (step_conserves k q c)
    ∙ append_assoc (buffered q k) (given k c) (given_all k cs)

-- Where an `add` of `b` comes between the length that `remove` reads without the lock and its
-- locked part, `remove` hands out only what was there before, and the queue keeps nothing: the
-- bytes of `b` are gone.
remove-add_race :
    (q : BufferQueue) (k : BufferQueueKey) (b : List ℕ)
    → let r = remove_locked (add q k b) k (remove_size q k) in
      (r.0 ≡ buffered q k) × (buffered r.1 k ≡ [])
unfolding remove_locked remove_size add
remove-add_race q k b = (
  ground (
    arith,
    lookup-insert k k (buffered q k ++ b) q.bufs,
    key_beq_iff k k,
    copy_short (buffered q k) b,
  ),
  ground (arith, lookup-delete k k (insert k (buffered q k ++ b) q.bufs), key_beq_iff k k),
)

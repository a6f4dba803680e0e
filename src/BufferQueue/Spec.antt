-- ===== src/BufferQueue/Spec.antt =====
-- What server/bufque.go promises: a queue is a function from keys to the bytes that it holds for them.
use container_cloudlet.Common.{
  ℕ, ◌≡◌, refl, ap, ap₂, ◌∙◌, List, [], ◌∷◌, ◌++◌, arith, ◌==◌, if◌then◌else◌, length,
  lookup-insert, lookup-delete,
}
use container_cloudlet.BufferQueue.{
  BufferQueue, BufferQueueKey, key_eq, key_beq_iff, buffered, add, remove_size, remove_locked,
  remove,
}
use container_cloudlet.BufferQueue.Conservation.{Call, adds, removes, after, after_all, copy_exact}

abbrev pub Contents : Type 0
Contents = BufferQueueKey → List ℕ

-- Added bytes come behind those of their key, and removing takes all of a key's; the other keys stay.
abbrev pub spec_after : Contents → Call → Contents
spec_after f (adds k b) j = if k == j then f j ++ b else f j
spec_after f (removes k) j = if k == j then [] else f j

unfoldable pub spec_after_all : Contents → List Call → Contents
spec_after_all f [] = f
spec_after_all f (c ∷ cs) = spec_after_all (spec_after f c) cs

-- The answers of the calls of `remove`: what is held for the key.
unfoldable pub spec_answers : Contents → List Call → List (List ℕ)
spec_answers f [] = []
spec_answers f (adds k b ∷ cs) = spec_answers (spec_after f (adds k b)) cs
spec_answers f (removes k ∷ cs) = f k ∷ spec_answers (spec_after f (removes k)) cs

-- The answers of the code.
unfoldable pub answers : BufferQueue → List Call → List (List ℕ)
answers q [] = []
answers q (adds k b ∷ cs) = answers (after q (adds k b)) cs
answers q (removes k ∷ cs) = (remove q k).0 ∷ answers (after q (removes k)) cs

remove-buffered : (q : BufferQueue) (k : BufferQueueKey) → (remove q k).0 ≡ buffered q k
unfolding remove remove_locked remove_size
remove-buffered q k = copy_exact (length (buffered q k)) (buffered q k) refl

after-spec_at :
    (q : BufferQueue) (c : Call) (j : BufferQueueKey)
    → buffered (after q c) j ≡ spec_after (buffered q) c j
unfolding after add remove remove_locked remove_size
after-spec_at q (adds k b) j =
    ground (arith, lookup-insert k j (buffered q k ++ b) q.bufs, key_beq_iff k j)
after-spec_at q (removes k) j = ground (arith, lookup-delete k j q.bufs, key_beq_iff k j)

after-spec_after : (q : BufferQueue) (c : Call) → buffered (after q c) ≡ spec_after (buffered q) c
after-spec_after q c i j = after-spec_at q c j i

answers-spec_answers :
    (q : BufferQueue) (cs : List Call) → answers q cs ≡ spec_answers (buffered q) cs
unfolding answers spec_answers
answers-spec_answers q [] = refl
answers-spec_answers q (adds k b ∷ cs) =
    answers-spec_answers (after q (adds k b)) cs
    ∙ ap (λ f. spec_answers f cs) (after-spec_after q (adds k b))
answers-spec_answers q (removes k ∷ cs) =
    ap₂ (λ (b : List ℕ) (bs : List (List ℕ)). b ∷ bs) (remove-buffered q k)
      (answers-spec_answers (after q (removes k)) cs
        ∙ ap (λ f. spec_answers f cs) (after-spec_after q (removes k)))

after_all-spec_after_all :
    (q : BufferQueue) (cs : List Call) → buffered (after_all q cs) ≡ spec_after_all (buffered q) cs
unfolding after_all spec_after_all
after_all-spec_after_all q [] = refl
after_all-spec_after_all q (c ∷ cs) =
    after_all-spec_after_all (after q c) cs ∙ ap (λ f. spec_after_all f cs) (after-spec_after q c)

-- Over any row of calls, from any queue, with any keys: the calls of `remove` answer, in order, what a
-- function from keys to bytes answers to which `add` appends at its key, and which `remove` empties at its
-- key, and the queue holds at the end what that function does.
pub calls_refine :
    (q : BufferQueue) (cs : List Call)
    → (answers q cs ≡ spec_answers (buffered q) cs)
      × (buffered (after_all q cs) ≡ spec_after_all (buffered q) cs)
calls_refine q cs = (answers-spec_answers q cs, after_all-spec_after_all q cs)

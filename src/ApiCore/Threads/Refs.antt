-- ===== src/ApiCore/Threads/Refs.antt =====
-- Which entry of server/api-core.go refers to which forwarding service, across a step of one handler.
use container_cloudlet.Common.{
  ℕ, ◌<◌, String, ◌≡◌, ◌⊎◌, inl, inr, true, false, Option, none, some, arith, ◌==◌, nat_eq,
  nat_beq_iff, string_eq, str_iff, if◌then◌else◌, ℕ_discrete,
}
use container_cloudlet.ApiCore.Threads.{Heap, set_closed, allocate}

-- What a step does to the services and to the address `x` that its entry refers to.
pub data Effect (h : Heap) (x : Option ℕ) : Option ℕ → Heap → Type 0 where
  quiet : Effect h x x h
  grows : x ≡ none → Effect h x (some h.next) (allocate h)
  shuts : (a : ℕ) → x ≡ some a → Effect h x x (set_closed a true h)
  drops : (a : ℕ) → x ≡ some a → h.closed a ≡ true → Effect h x none h

-- No two entries refer to one service, and each service that is not closed is referred to.
pub record Accounts (r : String → Option ℕ) (h : Heap) : Type 0 where
  pub below : (n : String) (a : ℕ) → r n ≡ some a → a < h.next
  pub apart : (n m : String) (a : ℕ) → r n ≡ some a → r m ≡ some a → n ≡ m
  pub found : (a : ℕ) → a < h.next → h.closed a ≡ false → (n : String) × (r n ≡ some a)

-- A closed service stays closed, and an address in use.
pub closed_still :
    {h h' : Heap} {y x : Option ℕ}
    → Effect h y x h'
    → (a : ℕ) → a < h.next
    → (a < h'.next) × (h.closed a ≡ true → h'.closed a ≡ true)
unfolding allocate set_closed
closed_still quiet a l = (l, λ e. e)
closed_still {h} (grows i) a l = (omega arith, λ e. ground (arith, nat_beq_iff a h.next))
closed_still (shuts b i) a l = (l, λ e. ground (arith, nat_beq_iff a b))
closed_still (drops b i j) a l = (l, λ e. e)

module _ (r : String → Option ℕ) (n : String) where
  -- The entry of `n` refers to `x` now.
  abbrev pub IsPut : Option ℕ → (String → Option ℕ) → Type 0
  IsPut x r' = (m : String) → r' m ≡ (if m == n then x else r m)

  Effect-below :
      {h h' : Heap} {x : Option ℕ} (r' : String → Option ℕ)
      → Effect h (r n) x h'
      → Accounts r h
      → IsPut x r'
      → (m : String) (a : ℕ) → r' m ≡ some a
      → a < h'.next
  unfolding allocate
  Effect-below r' quiet c p m a e = ground (arith, p m, str_iff m n, c.below m a, c.below n a)
  Effect-below r' (grows k) c p m a e = ground (arith, p m, str_iff m n, c.below m a)
  Effect-below r' (shuts b k) c p m a e = ground (arith, p m, str_iff m n, c.below m a, c.below n a)
  Effect-below r' (drops b k l) c p m a e = ground (arith, p m, str_iff m n, c.below m a)

  Effect-apart :
      {h h' : Heap} {x : Option ℕ} (r' : String → Option ℕ)
      → Effect h (r n) x h'
      → Accounts r h
      → IsPut x r'
      → (m k : String) (a : ℕ) → r' m ≡ some a
      → r' k ≡ some a
      → m ≡ k
  Effect-apart r' quiet c p m k a e f =
      ground
        (arith, p m, p k, str_iff m n, str_iff k n, c.apart m k a, c.apart n k a, c.apart m n a)
  Effect-apart r' (grows i) c p m k a e f =
      ground (arith, p m, p k, str_iff m n, str_iff k n, c.apart m k a, c.below m a, c.below k a)
  Effect-apart r' (shuts b i) c p m k a e f =
      ground
        (arith, p m, p k, str_iff m n, str_iff k n, c.apart m k a, c.apart n k a, c.apart m n a)
  Effect-apart r' (drops b i j) c p m k a e f =
      ground (arith, p m, p k, str_iff m n, str_iff k n, c.apart m k a)

  -- An address that was referred to is so still, unless its service is closed.
  pub kept_or_closed :
      {h h' : Heap} {x : Option ℕ} (r' : String → Option ℕ)
      → Effect h (r n) x h'
      → IsPut x r'
      → (m : String) (a : ℕ) → r m ≡ some a
      → (r' m ≡ some a) ⊎ (h'.closed a ≡ true)
  unfolding allocate set_closed
  kept_or_closed r' quiet p m a e = ground (arith, p m, str_iff m n)
  kept_or_closed r' (grows i) p m a e = ground (arith, p m, str_iff m n)
  kept_or_closed r' (shuts b i) p m a e = ground (arith, p m, str_iff m n)
  kept_or_closed r' (drops b i j) p m a e = ground (arith, p m, str_iff m n)

  found_still :
      {h h' : Heap} {x : Option ℕ} (r' : String → Option ℕ)
      → Effect h (r n) x h'
      → Accounts r h
      → IsPut x r'
      → (a : ℕ) → a < h.next
      → h.closed a ≡ false
      → h'.closed a ≡ false
      → (m : String) × (r' m ≡ some a)
  found_still r' f c p a l o o' =
      let (m, e) = c.found a l o in
      elim (kept_or_closed r' f p m a e) [ inl k ↦ (m, k) | inr k ↦ absurd (cc) ]

  Effect-found :
      {h h' : Heap} {x : Option ℕ} (r' : String → Option ℕ)
      → Effect h (r n) x h'
      → Accounts r h
      → IsPut x r'
      → (a : ℕ) → a < h'.next
      → h'.closed a ≡ false
      → (m : String) × (r' m ≡ some a)
  unfolding allocate set_closed
  Effect-found r' quiet c p a l o = found_still r' quiet c p a l o o
  Effect-found {h} r' (grows i) c p a l o = elim (ℕ_discrete a h.next) [
    | yes e ↦ (n, ground (arith, p n, str_iff n n))
    | no e ↦ found_still r' (grows i) c p a (omega arith) (ground (arith, nat_beq_iff a h.next)) o
  ]
  Effect-found r' (shuts b i) c p a l o =
      found_still r' (shuts b i) c p a l (ground (arith, nat_beq_iff a b)) o
  Effect-found r' (drops b i j) c p a l o = found_still r' (drops b i j) c p a l o o

  pub Effect-Accounts :
      {h h' : Heap} {x : Option ℕ} (r' : String → Option ℕ)
      → Effect h (r n) x h'
      → Accounts r h
      → IsPut x r'
      → Accounts r' h'
  Effect-Accounts r' f c p = record {
    below = Effect-below r' f c p;
    apart = Effect-apart r' f c p;
    found = Effect-found r' f c p;
  }

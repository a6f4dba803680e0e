-- ===== src/ApiCore/Threads/Places.antt =====
-- What a step of one handler of server/api-core.go does to its entry and to the services.
use container_cloudlet.Common.{
  ℕ, ◌<◌, ◌≡◌, ◌≢◌, refl, sym, subst, true, false, Option, none, some, arith, nat_eq, nat_beq_iff,
}
use container_cloudlet.ApiCore.Threads.{
  Op, dump_start, Place, begins, tests, listens, assigns, spawns, ends, clears, closes, first,
  after, Heap, set_closed, allocate, Act, goes_on, no_client, finds, finds_none, no_address,
  listen_fails, starts, assigned, has_service, has_none, closes_it, cleared, unlocks,
}
use container_cloudlet.ApiCore.Threads.Ops.{by_first, by_after}
use container_cloudlet.ApiCore.Threads.Refs.{Effect, quiet, grows, shuts, drops, closed_still}

-- A service that is kept is open.
abbrev pub Open : Heap → Option ℕ → Type 0
Open h none = Unit
Open h (some a) = (a < h.next) × (h.closed a ≡ false)

-- What holds where the handler stands, of the heap and of the service that the entry keeps.
abbrev pub At : Heap → Option ℕ → Place → Type 0
At h k (listens op) = k ≡ none
At h k (assigns op a) = (k ≡ none) × (a < h.next) × (h.closed a ≡ false)
At h k (closes a) = (k ≡ some a) × (a < h.next) × (h.closed a ≡ false)
At h k clears = (a : ℕ) × (k ≡ some a) × (a < h.next) × (h.closed a ≡ true)
At h k (begins op) = Open h k
At h k (tests op) = Open h k × (op ≢ dump_start)
At h k spawns = Open h k
At h k ends = Open h k

abbrev pub Sound : Heap → Option ℕ → Option Place → Type 0
Sound h k none = Open h k
Sound h k (some p) = At h k p

-- The service that an entry refers to: the one it keeps, or that is to be assigned.
abbrev pub ref_at : Place → Option ℕ → Option ℕ
ref_at (assigns op a) k = some a
ref_at (listens op) k = k
ref_at (closes a) k = k
ref_at clears k = k
ref_at (begins op) k = k
ref_at (tests op) k = k
ref_at spawns k = k
ref_at ends k = k

abbrev pub ref : Option Place → Option ℕ → Option ℕ
ref none k = k
ref (some p) k = ref_at p k

first-At : (h : Heap) (k : Option ℕ) (op : Op) → Open h k → At h k (first op)
first-At h k op o = by_first (At h k) op o (λ d. (o, d))

after-At : (h : Heap) (k : Option ℕ) (op : Op) → Open h k → At h k (after op)
after-At h k op o = by_after (At h k) op o o

none-Open : (h : Heap) (k : Option ℕ) → k ≡ none → Open h k
none-Open h k e = subst (Open h) (sym e) tt

some-Open :
    (h : Heap) (k : Option ℕ) (a : ℕ) → k ≡ some a → Open h k → (a < h.next) × (h.closed a ≡ false)
some-Open h k a e o = subst (Open h) e o

pub Act-Sound :
    {k k' : Option ℕ} {h h' : Heap} {p : Place} {o : Option Place}
    → Act k h p k' h' o
    → At h k p
    → Sound h' k' o
unfolding allocate set_closed
Act-Sound {k} {h = h} (goes_on op) i = first-At h k op i
Act-Sound (no_client op c) i = i
Act-Sound {k} {h = h} (finds op a d e) (i, n) = after-At h k op i
Act-Sound (finds_none op d e) i = e
Act-Sound (no_address op d c e) (i, n) = i
Act-Sound {k} {h = h} (listen_fails op) i = after-At h k op (none-Open h k i)
Act-Sound {h = h} (starts op) i = (i, omega arith, ground (arith, nat_beq_iff h.next h.next))
Act-Sound {h = h} (assigned op a) (e, l, c) = after-At h (some a) op (l, c)
Act-Sound {k} {h = h} (has_service a e) (i, n) = let (l, c) = some-Open h k a e i in (e, l, c)
Act-Sound (has_none e) (i, n) = i
Act-Sound (closes_it a c) (e, l, c') = (a, e, l, ground (arith, nat_beq_iff a a))
Act-Sound cleared i = tt
Act-Sound unlocks i = i

first-ref : (k : Option ℕ) (op : Op) → ref_at (first op) k ≡ k
first-ref k op = by_first (λ p. ref_at p k ≡ k) op refl (λ d. refl)

after-ref : (k : Option ℕ) (op : Op) → ref_at (after op) k ≡ k
after-ref k op = by_after (λ p. ref_at p k ≡ k) op refl refl

quiet_by : {h : Heap} {x y : Option ℕ} → y ≡ x → Effect h x y h
quiet_by {h} {x} e = subst (λ y. Effect h x y h) (sym e) quiet

pub Act-Effect :
    {k k' : Option ℕ} {h h' : Heap} {p : Place} {o : Option Place}
    → Act k h p k' h' o
    → At h k p
    → Effect h (ref_at p k) (ref o k') h'
Act-Effect {k} (goes_on op) i = quiet_by (first-ref k op)
Act-Effect (no_client op c) i = quiet
Act-Effect {k} (finds op a d e) i = quiet_by (after-ref k op)
Act-Effect (finds_none op d e) i = quiet
Act-Effect (no_address op d c e) i = quiet
Act-Effect {k} (listen_fails op) i = quiet_by (after-ref k op)
Act-Effect (starts op) i = grows i
Act-Effect (assigned op a) i = quiet_by (after-ref (some a) op)
Act-Effect (has_service a e) i = quiet
Act-Effect (has_none e) i = quiet
Act-Effect (closes_it a c) (e, l, c') = shuts a e
Act-Effect cleared (a, e, l, c) = drops a e c
Act-Effect unlocks i = quiet

-- Another entry, which does not refer to a service that this step closes.
abbrev pub Spares : {h h' : Heap} {x y : Option ℕ} → Effect h x y h' → Option ℕ → Type 0
Spares quiet r = Unit {0}
Spares (grows i) r = Unit {0}
Spares (shuts a i) r = r ≢ some a
Spares (drops a i j) r = Unit {0}

still_open :
    {h h' : Heap} {x y : Option ℕ} (f : Effect h x y h') (a : ℕ)
    → Spares f (some a)
    → (a < h.next) × (h.closed a ≡ false)
    → (a < h'.next) × (h'.closed a ≡ false)
unfolding allocate set_closed
still_open quiet a s o = o
still_open {h} (grows i) a s (l, c) = (omega arith, ground (arith, nat_beq_iff a h.next))
still_open (shuts b i) a s (l, c) = (l, ground (arith, nat_beq_iff a b))
still_open (drops b i j) a s o = o

Open-still :
    {h h' : Heap} {x y : Option ℕ} (f : Effect h x y h') (k : Option ℕ)
    → Spares f k
    → Open h k
    → Open h' k
Open-still f none s o = tt
Open-still f (some a) s o = still_open f a s o

At-still :
    {h h' : Heap} {x y : Option ℕ} (f : Effect h x y h') (k : Option ℕ) (p : Place)
    → Spares f (ref_at p k)
    → At h k p
    → At h' k p
At-still f k (listens op) s e = e
At-still f k (assigns op a) s (e, l, c) = let (l', c') = still_open f a s (l, c) in (e, l', c')
At-still f k (closes a) s (e, l, c) =
    let (l', c') = still_open f a (subst (Spares f) e s) (l, c) in (e, l', c')
At-still f k clears s (a, e, l, c) = let (l', c') = closed_still f a l in (a, e, l', c' c)
At-still f k (begins op) s o = Open-still f k s o
At-still f k (tests op) s (o, n) = (Open-still f k s o, n)
At-still f k spawns s o = Open-still f k s o
At-still f k ends s o = Open-still f k s o

-- What holds at an entry is left so by the steps of the others.
pub Sound-still :
    {h h' : Heap} {x y : Option ℕ} (f : Effect h x y h') (k : Option ℕ) (o : Option Place)
    → Spares f (ref o k)
    → Sound h k o
    → Sound h' k o
Sound-still f k none s i = Open-still f k s i
Sound-still f k (some p) s i = At-still f k p s i

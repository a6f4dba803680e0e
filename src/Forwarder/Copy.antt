-- ===== src/Forwarder/Copy.antt =====
-- What a stream of server/fwd.go hands on: `upstream` and `downstream` against the bytes that were read.
use container_cloudlet.Common.{
  ℕ, ◌≤◌, ◌≡◌, ◌≢◌, refl, sym, ap, ◌∙◌, Bool, true, false, Option, none, some, List, [], ◌∷◌, ◌++◌,
  ℤ, take, drop, length, take-length_le, take-append-drop, append_assoc, append-nil, arith, inl,
  inr, ◌⊎◌, if◌then◌else◌,
}
use container_cloudlet.Go.{GoError}
use container_cloudlet.Forwarder.Stream.{
  Float, Round, emergency_closed, write_failed, Copied, returns, after_round, upstream, downstream,
  up_round, down_round, after_read, after_write,
}

-- All the bytes that the rounds read, in order.
abbrev pub chunks : List Round → List ℕ
chunks [] = []
chunks (r ∷ rs) = r.chunk ++ chunks rs

-- The contract of io.Writer: no more than it was given, and all of it if there is no error.
abbrev pub Obeys : Round → Type 0
Obeys r = (r.written ≤ length r.chunk) × (r.write_error ≡ none → r.written ≡ length r.chunk)

abbrev pub AllObey : List Round → Type 0
AllObey [] = Unit
AllObey (r ∷ rs) = Obeys r × AllObey rs

-- The output is a beginning of what was read, and all of it unless a write failed.
abbrev pub IsCopy : List Round → Copied → Type 0
IsCopy rs c =
    (lost : List ℕ) × (chunks (take c.reads rs) ≡ c.output ++ lost)
    × ((lost ≡ []) ⊎ (c.ended ≡ some write_failed))

read-IsCopy :
    (r : Round) (rs : List Round) (out : List ℕ) (pauses : List ℤ) (e : Option GoError) (c : Copied)
    → out ≡ r.chunk
    → IsCopy rs c
    → IsCopy (r ∷ rs) (after_round out pauses (after_read e c))
read-IsCopy r rs out pauses none c h (lost, e, k) =
    (lost, rw (h, e) (sym (append_assoc r.chunk c.output lost)), k)
read-IsCopy r rs out pauses (some x) c h v = ([], rw h (sym (append-nil (r.chunk ++ []))), inl refl)

write-IsCopy :
    (r : Round) (rs : List Round) (pauses : List ℤ) (we re : Option GoError) (c : Copied)
    → (r.written ≤ length r.chunk)
    → (we ≡ none → r.written ≡ length r.chunk)
    → IsCopy rs c
    → IsCopy (r ∷ rs) (after_round (take r.written r.chunk) pauses (after_write we re c))
write-IsCopy r rs pauses none re c le h v =
    read-IsCopy r rs _ pauses re c (take-length_le r.written r.chunk (omega (arith, h refl))) v
write-IsCopy r rs pauses (some x) re c le h v = (
  drop r.written r.chunk,
  append-nil r.chunk
      ∙ sym (
          ap (λ (xs : List ℕ). xs ++ drop r.written r.chunk) (append-nil (take r.written r.chunk))
          ∙ take-append-drop r.written r.chunk),
  inr refl,
)

if-IsCopy :
    (b : Bool) (c d : Copied) (rs : List Round)
    → IsCopy rs c
    → IsCopy rs d
    → IsCopy rs (if b then c else d)
if-IsCopy true c d rs h k = h
if-IsCopy false c d rs h k = k

if-ends :
    (b : Bool) (c : Copied)
    → c.ended ≢ none
    → (if b then returns emergency_closed else c).ended ≢ none
if-ends true c h = λ p. cc
if-ends false c h = h

module _ (fl : Float) where
  up_round-IsCopy :
      (rate : ℤ) (r : Round) (rs : List Round) (xs : List ℕ) (c : Copied)
      → r.chunk ≡ xs
      → Obeys r
      → IsCopy rs c
      → IsCopy (r ∷ rs) (up_round fl rate r xs c)
  up_round-IsCopy rate r rs [] c e h v = read-IsCopy r rs [] [] r.read_error c (sym e) v
  up_round-IsCopy rate r rs (b ∷ bs) c e h v =
      rw (← e) (write-IsCopy r rs [] r.write_error r.read_error c h.0 h.1 v)

  -- Whatever the sockets yield, under the contract of io.Writer: what `upstream` wrote is a beginning
  -- of what it read, in order, and all of that unless it returned because a write failed.
  pub upstream-IsCopy : (rate : ℤ) (rs : List Round) → AllObey rs → IsCopy rs (upstream fl rate rs)
  unfolding upstream
  upstream-IsCopy rate [] h = ([], refl, inl refl)
  upstream-IsCopy rate (r ∷ rs) h =
      if-IsCopy r.emergency (returns emergency_closed)
        (up_round fl rate r r.chunk (upstream fl rate rs)) (r ∷ rs) ([], refl, inl refl)
        (up_round-IsCopy rate r rs r.chunk (upstream fl rate rs) refl h.0
          (upstream-IsCopy rate rs h.1))

down_round-IsCopy :
    (r : Round) (rs : List Round) (xs : List ℕ) (c : Copied)
    → r.chunk ≡ xs
    → Obeys r
    → IsCopy rs c
    → IsCopy (r ∷ rs) (down_round r xs c)
down_round-IsCopy r rs [] c e h v = read-IsCopy r rs [] [] r.read_error c (sym e) v
down_round-IsCopy r rs (b ∷ bs) c e h v =
    rw (← e) (write-IsCopy r rs [] r.write_error r.read_error c h.0 h.1 v)

-- Whatever the sockets yield, under the contract of io.Writer: what `downstream` wrote is a beginning
-- of what it read, in order, and all of that unless it returned because a write failed.
downstream-IsCopy : (rs : List Round) → AllObey rs → IsCopy rs (downstream rs)
unfolding downstream
downstream-IsCopy [] h = ([], refl, inl refl)
downstream-IsCopy (r ∷ rs) h =
    down_round-IsCopy r rs r.chunk (downstream rs) refl h.0 (downstream-IsCopy rs h.1)

-- A round that ends a stream, whatever else it does: its read or a write that it makes fails.
abbrev pub Ends : Round → Type 0
Ends r = r.read_error ≢ none

abbrev pub SomeEnds : List Round → Type 0
SomeEnds [] = ⊥
SomeEnds (r ∷ rs) = Ends r ⊎ SomeEnds rs

after_read-ends :
    (e : Option GoError) (c : Copied)
    → (e ≢ none) ⊎ (c.ended ≢ none)
    → (after_read e c).ended ≢ none
after_read-ends none c (inl h) = absurd (h refl)
after_read-ends none c (inr h) = h
after_read-ends (some x) c h = λ p. cc

after_write-ends :
    (we re : Option GoError) (c : Copied)
    → (re ≢ none) ⊎ (c.ended ≢ none)
    → (after_write we re c).ended ≢ none
after_write-ends none re c h = after_read-ends re c h
after_write-ends (some x) re c h = λ p. cc

module _ (fl : Float) where
  up_round-Ends :
      (rate : ℤ) (r : Round) (xs : List ℕ) (c : Copied)
      → Ends r ⊎ (c.ended ≢ none)
      → (up_round fl rate r xs c).ended ≢ none
  up_round-Ends rate r [] c h = after_read-ends r.read_error c h
  up_round-Ends rate r (b ∷ bs) c h = after_write-ends r.write_error r.read_error c h

  -- A read that fails, or reaches the end, in some round makes `upstream` return.
  upstream-ends : (rate : ℤ) (rs : List Round) → SomeEnds rs → (upstream fl rate rs).ended ≢ none
  unfolding upstream
  upstream-ends rate [] h = λ _. h
  upstream-ends rate (r ∷ rs) (inl h) =
      if-ends r.emergency (up_round fl rate r r.chunk (upstream fl rate rs))
        (up_round-Ends rate r r.chunk (upstream fl rate rs) (inl h))
  upstream-ends rate (r ∷ rs) (inr h) =
      if-ends r.emergency (up_round fl rate r r.chunk (upstream fl rate rs))
        (up_round-Ends rate r r.chunk (upstream fl rate rs) (inr (upstream-ends rate rs h)))

-- ===== src/Go/Ensures.antt =====
-- Conditions before and after the code of Go.antt, one rule for each way to build it: what holds when
-- it returns, when it fails, and when it panics.
use container_cloudlet.Common.{◌≡◌, ◌≢◌, refl, String, Option, none, some, if◌then◌else◌}
use container_cloudlet.Go.{
  GoError, Result, ok, fail, panic, of_error, Try, proceed, return, modify, lift, answer, call,
  failed, finally, on_error, zoom, ◌>>=◌,
}

pub record Post (S A : Type 0) : Type 1 where
  pub returned : A → S → Type 0
  pub errored : S → Type 0
  pub panicked : S → Type 0

abbrev pub Holds : {S A : Type 0} → Post S A → Result A × S → Type 0
Holds q (ok a, s) = q.returned a s
Holds q (fail e, s) = q.errored s
Holds q (panic m, s) = q.panicked s

-- The condition of a part: `q` with another one for a return.
abbrev pub via : {S A B : Type 0} → (A → S → Type 0) → Post S B → Post S A
via r q = record { returned = r; errored = q.errored; panicked = q.panicked }

-- `q` after a change of the state by `f`, at every exit and at an error.
abbrev pub past : {S A : Type 0} → (S → S) → Post S A → Post S A
past f q = record {
  returned = λ a s. q.returned a (f s);
  errored = λ s. q.errored (f s);
  panicked = λ s. q.panicked (f s);
}

abbrev pub past_error : {S A : Type 0} → (S → S) → Post S A → Post S A
past_error f q = record q { errored = λ s. q.errored (f s) }

-- From a state with `P`, the code exits with `q`.
pub record Ensures {S A : Type 0} (P : S → Type 0) (m : Try S A) (q : Post S A) : Type 0 where
  pub at : (s : S) → P s → Holds q (m s)

module _ {S A : Type 0} (q : Post S A) where
  of_error-Holds :
      (e : Option GoError) (a : A) (s : S)
      → (e ≡ none → q.returned a s)
      → ((x : GoError) → e ≡ some x → q.errored s)
      → Holds q (of_error a e, s)
  of_error-Holds none a s h k = h refl
  of_error-Holds (some x) a s h k = k x refl

  exit-Holds : (f : S → S) (r : Result A) (s : S) → Holds (past f q) (r, s) → Holds q (r, f s)
  exit-Holds f (ok a) s h = h
  exit-Holds f (fail e) s h = h
  exit-Holds f (panic m) s h = h

  error-Holds :
      (f : S → S) (r : Result A) (s : S)
      → Holds (past_error f q) (r, s)
      → Holds q (r, if failed r then f s else s)
  error-Holds f (ok a) s h = h
  error-Holds f (fail e) s h = h
  error-Holds f (panic m) s h = h

-- The condition of code on a part of the state, `put s` away from that of the whole.
abbrev pub on_part : {S T A : Type 0} → (T → S) → Post S A → Post T A
on_part put q = record {
  returned = λ a t. q.returned a (put t);
  errored = λ t. q.errored (put t);
  panicked = λ t. q.panicked (put t);
}

pub zoom-Holds :
    {S T A : Type 0} (q : Post S A) (put : T → S) (r : Result A) (t : T)
    → Holds (on_part put q) (r, t)
    → Holds q (r, put t)
zoom-Holds q put (ok a) t h = h
zoom-Holds q put (fail e) t h = h
zoom-Holds q put (panic m) t h = h

module _ {S A B : Type 0} (q : Post S B) where
  proceed-Holds :
      (f : A → Try S B) (mid : A → S → Type 0)
      → ((a : A) → Ensures (mid a) (f a) q)
      → (r : Result A) (s : S) → Holds (via mid q) (r, s)
      → Holds q (proceed r f s)
  proceed-Holds f mid k (ok a) s h = (k a).at s h
  proceed-Holds f mid k (fail e) s h = h
  proceed-Holds f mid k (panic m) s h = h

module _ {S A B : Type 0} {P : S → Type 0} {q : Post S B} where
  pub Ensures-bind :
      (mid : A → S → Type 0) {m : Try S A} {f : A → Try S B}
      → Ensures P m (via mid q)
      → ((a : A) → Ensures (mid a) (f a) q)
      → Ensures P (m >>= f) q
  unfolding ◌>>=◌
  Ensures-bind mid {m} {f} h k = record {
    at = λ s p. proceed-Holds q f mid k (m s).0 (m s).1 (h.at s p);
  }

module _ {S A : Type 0} {P : S → Type 0} {q : Post S A} where
  pub Ensures-return : (a : A) → ((s : S) → P s → q.returned a s) → Ensures P (return a) q
  unfolding return
  Ensures-return a h = record { at = h }

  pub Ensures-answer :
      (m : S → (Option GoError × A) × S)
      → ((s : S) → P s → (m s).0.0 ≡ none → q.returned (m s).0.1 (m s).1)
      → ((s : S) → P s → (x : GoError) → (m s).0.0 ≡ some x → q.errored (m s).1)
      → Ensures P (answer m) q
  unfolding answer
  Ensures-answer m h k = record {
    at = λ s p. of_error-Holds q (m s).0.0 (m s).0.1 (m s).1 (h s p) (k s p);
  }

  pub Ensures-finally :
      {m : Try S A} (f : S → S) → Ensures P m (past f q) → Ensures P (finally m f) q
  unfolding finally
  Ensures-finally {m} f h = record { at = λ s p. exit-Holds q f (m s).0 (m s).1 (h.at s p) }

  pub Ensures-on_error :
      {m : Try S A} (f : S → S) → Ensures P m (past_error f q) → Ensures P (on_error m f) q
  unfolding on_error
  Ensures-on_error {m} f h = record { at = λ s p. error-Holds q f (m s).0 (m s).1 (h.at s p) }

module _ {S : Type 0} {P : S → Type 0} {q : Post S (Unit {0})} where
  pub Ensures-modify : (f : S → S) → ((s : S) → P s → q.returned tt (f s)) → Ensures P (modify f) q
  unfolding modify
  Ensures-modify f h = record { at = h }

  pub Ensures-call :
      (m : S → Option GoError × S)
      → ((s : S) → P s → (m s).0 ≡ none → q.returned tt (m s).1)
      → ((s : S) → P s → (x : GoError) → (m s).0 ≡ some x → q.errored (m s).1)
      → Ensures P (call m) q
  unfolding call
  Ensures-call m h k = record { at = λ s p. of_error-Holds q (m s).0 tt (m s).1 (h s p) (k s p) }

module _ {S T A : Type 0} {P : S → Type 0} {q : Post S A} where
  pub Ensures-zoom :
      (get : S → T) (put : S → T → S) (m : Try T A)
      → ((s : S) → P s → Holds (on_part (put s) q) (m (get s)))
      → Ensures P (zoom get put m) q
  unfolding zoom
  Ensures-zoom get put m h = record {
    at = λ s p. zoom-Holds q (put s) (m (get s)).0 (m (get s)).1 (h s p);
  }

-- Code that cannot panic.
pub record Returns {S A : Type 0} (m : Try S A) : Type 0 where
  pub at : (s : S) (x : String) → (m s).0 ≢ panic x

module _ {S A B : Type 0} where
  proceed-Returns :
      (f : A → Try S B) (r : Result A) (s : S) (x : String)
      → ((y : String) → r ≢ panic y)
      → ((a : A) → Returns (f a))
      → (proceed r f s).0 ≢ panic x
  proceed-Returns f (ok a) s x h k = (k a).at s x
  proceed-Returns f (fail e) s x h k = λ p. cc
  proceed-Returns f (panic m) s x h k = absurd (h m refl)

  pub Returns-bind :
      {m : Try S A} {f : A → Try S B} → Returns m → ((a : A) → Returns (f a)) → Returns (m >>= f)
  unfolding ◌>>=◌
  Returns-bind {m} {f} h k = record { at = λ s x. proceed-Returns f (m s).0 (m s).1 x (h.at s) k }

module _ {S T A : Type 0} (q : Post S A) where
  part-Holds :
      (put : T → S) (r : Result A) (t : T)
      → ((x : String) → r ≢ panic x)
      → ((a : A) (u : T) → q.returned a (put u))
      → ((u : T) → q.errored (put u))
      → Holds (on_part put q) (r, t)
  part-Holds put (ok a) t n h k = h a t
  part-Holds put (fail e) t n h k = k t
  part-Holds put (panic m) t n h k = absurd (n m refl)

  -- Such code on a part of the state, where nothing depends on that part.
  pub Ensures-part :
      {P : S → Type 0} (get : S → T) (put : S → T → S) {m : Try T A}
      → Returns m
      → ((s : S) → P s → (a : A) (u : T) → q.returned a (put s u))
      → ((s : S) → P s → (u : T) → q.errored (put s u))
      → Ensures P (zoom get put m) q
  Ensures-part get put {m} n h k =
      Ensures-zoom get put m
        λ s p. part-Holds (put s) (m (get s)).0 (m (get s)).1 (n.at (get s)) (h s p) (k s p)

  whole-Holds :
      (put : T → S) (r : Result A) (t : T)
      → ((a : A) (u : T) → q.returned a (put u))
      → ((u : T) → q.errored (put u))
      → ((u : T) → q.panicked (put u))
      → Holds (on_part put q) (r, t)
  whole-Holds put (ok a) t h k l = h a t
  whole-Holds put (fail e) t h k l = k t
  whole-Holds put (panic m) t h k l = l t

  -- Any code on a part of the state, where nothing depends on that part.
  pub Ensures-whole :
      {P : S → Type 0} (get : S → T) (put : S → T → S) (m : Try T A)
      → ((s : S) → P s → (a : A) (u : T) → q.returned a (put s u))
      → ((s : S) → P s → (u : T) → q.errored (put s u))
      → ((s : S) → P s → (u : T) → q.panicked (put s u))
      → Ensures P (zoom get put m) q
  Ensures-whole get put m h k l =
      Ensures-zoom get put m
        λ s p. whole-Holds (put s) (m (get s)).0 (m (get s)).1 (h s p) (k s p) (l s p)

module _ {S A : Type 0} (q : Post S A) where
  lift-Holds :
      (r : Result A) (s : S)
      → ((a : A) → q.returned a s)
      → q.errored s
      → q.panicked s
      → Holds q (r, s)
  lift-Holds (ok a) s h k l = h a
  lift-Holds (fail e) s h k l = k
  lift-Holds (panic m) s h k l = l

  -- Code that does not touch the state, whatever its answer.
  pub Ensures-lift :
      {P : S → Type 0} (r : Result A)
      → ((s : S) → P s → (a : A) → q.returned a s)
      → ((s : S) → P s → q.errored s)
      → ((s : S) → P s → q.panicked s)
      → Ensures P (lift r) q
  unfolding lift
  Ensures-lift r h k l = record { at = λ s p. lift-Holds r s (h s p) (k s p) (l s p) }

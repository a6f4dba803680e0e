-- ===== src/Go.antt =====
-- Go's error values and results, and server/errors.go. An error is what the server reads of it: its
-- text, what a type assertion to net.Error finds, what it wraps, and whether it is io.EOF. A stack
-- trace that errors.WithStack adds is not part of it.
pub mod Ensures
use container_cloudlet.Common.{
  String, ◌≡◌, refl, Bool, true, false, not, Option, none, some, contains, if◌then◌else◌,
}

pub record GoError : Type 0 where
  pub text : String
  -- `err.(net.Error)` succeeds
  pub is_net : Bool
  -- the answer of its `Timeout()`
  pub timeout : Bool
  -- `errors.Is(err, os.ErrDeadlineExceeded)`
  pub wraps_deadline : Bool
  -- `err == io.EOF`
  pub is_eof : Bool
  -- what `k8serrors.IsNotFound` and `k8serrors.IsAlreadyExists` answer
  pub not_found : Bool
  pub already_exists : Bool

-- `errors.New`
abbrev pub new_error : String → GoError
new_error s = record {
  text = s;
  is_net = false;
  timeout = false;
  wraps_deadline = false;
  is_eof = false;
  not_found = false;
  already_exists = false;
}

abbrev pub eof : GoError
eof = record (new_error "EOF") { is_eof = true }

unfoldable pub is_closed_error : GoError → Bool
unfolding contains
is_closed_error e = contains e.text "use of closed network connection"

unfoldable pub is_deadline_exceeded : GoError → Bool
is_deadline_exceeded e =
    if not e.is_net
    then false
    else if not e.timeout
    then false
    else if not e.wraps_deadline
    then false
    else true

-- A call returns, fails with an error, or panics.
pub data Result {ℓ} (A : Type ℓ) : Type ℓ where
  ok : A → Result A
  fail : GoError → Result A
  panic : String → Result A

-- A `(T, error)` result of a library's function.
abbrev pub of_error {ℓ} : {A : Type ℓ} → A → Option GoError → Result A
of_error a none = ok a
of_error a (some e) = fail e

-- Code that changes a state and may return early with an error.
abbrev pub Try : Type 0 → Type 0 → Type 0
Try S A = S → Result A × S

abbrev pub proceed : {S A B : Type 0} → Result A → (A → Try S B) → Try S B
proceed (ok a) f s = f a s
proceed (fail e) f s = (fail e, s)
proceed (panic m) f s = (panic m, s)

unfoldable pub return : {S A : Type 0} → A → Try S A
return a s = (ok a, s)

-- A statement that only changes the state.
unfoldable pub modify : {S : Type 0} → (S → S) → Try S (Unit {0})
modify f s = (ok tt, f s)

-- A function that does not touch the state.
unfoldable pub lift : {S A : Type 0} → Result A → Try S A
lift r s = (r, s)

-- A library's function with a `(T, error)` result.
unfoldable pub answer : {S A : Type 0} → (S → (Option GoError × A) × S) → Try S A
answer m s = let ((e, a), s') = m s in (of_error a e, s')

-- One with an `error` alone.
unfoldable pub call : {S : Type 0} → (S → Option GoError × S) → Try S (Unit {0})
call m s = let (e, s') = m s in (of_error tt e, s')

-- `defer`: run at every exit.
unfoldable pub finally : {S A : Type 0} → Try S A → (S → S) → Try S A
finally m f s = let (r, s') = m s in (r, f s')

abbrev pub failed : {A : Type 0} → Result A → Bool
failed (ok a) = false
failed (fail e) = true
failed (panic m) = false

-- `defer` of a cleanup under `if reterr != nil`; a panic leaves `reterr` nil.
unfoldable pub on_error : {S A : Type 0} → Try S A → (S → S) → Try S A
on_error m f s = let (r, s') = m s in (r, if failed r then f s' else s')

-- A part of the state, which the code in `m` changes.
unfoldable pub zoom : {S T A : Type 0} → (S → T) → (S → T → S) → Try T A → Try S A
zoom get put m s = let (r, t) = m (get s) in (r, put s t)

infixl 5 ◌>>=◌ ◌>>◌
-- Opening this opens the functions above too.
unfoldable pub ◌>>=◌ : {S A B : Type 0} → Try S A → (A → Try S B) → Try S B
unfolding return modify lift answer call finally on_error zoom
◌>>=◌ m f s = let (r, s') = m s in proceed r f s'

abbrev pub ◌>>◌ : {S A B : Type 0} → Try S A → Try S B → Try S B
m >> n = m >>= λ _. n

closed_listener :
    is_closed_error (new_error "accept tcp [::]:80: use of closed network connection") ≡ true
unfolding is_closed_error
closed_listener = refl

other_error : is_closed_error (new_error "connection reset by peer") ≡ false
unfolding is_closed_error
other_error = refl

-- ===== src/ApiServer/Accept.antt =====
-- `StartAPIServer` of server/api-server.go as a step relation: the accept loop, the goroutine that waits
-- for `chanClose`, and the program that closes it. A step runs between two points where another
-- goroutine may come in; a connection is known by its number.
use container_cloudlet.Common.{
  ℕ, ◌≡◌, Bool, true, false, Option, none, some, List, [], ◌∷◌, ◌++◌, if◌then◌else◌,
}
use container_cloudlet.Go.{GoError, Result, ok, panic, is_closed_error}

-- Where the loop stands: at its test of `open`, in `Accept`, or returned.
pub data Loop : Type 0 where
  at_test accepting returned : Loop

-- Where the goroutine stands: at `<-chanClose`, behind `open = false`, or behind `ln.Close()`.
pub data Closer : Type 0 where
  waits flagged closed : Closer

pub record Server : Type 0 where
  pub open_flag : Bool
  pub chan_closed : Bool
  pub loop : Loop
  pub closer : Closer
  -- the connections for which `go handleConnection(conn)` ran, and the errors that were logged
  pub handled : List ℕ
  pub logged : List GoError

abbrev pub started : Server
started = record {
  open_flag = true;
  chan_closed = false;
  loop = at_test;
  closer = waits;
  handled = [];
  logged = [];
}

-- `net.Listen`, up to the loop
unfoldable pub start_api_server : Option GoError → Result Server
start_api_server none = ok started
start_api_server (some e) = panic e.text

-- What `Accept` answers.
pub data Answer : Type 0 where
  conn : ℕ → Answer
  error : GoError → Answer

-- The body of the loop behind `Accept`.
unfoldable pub after_accept : Server → Answer → Server
unfolding is_closed_error
after_accept s (conn c) = record s { handled = s.handled ++ c ∷ []; loop = at_test }
after_accept s (error e) =
    if is_closed_error e
    then record s { loop = returned }
    else record s { logged = s.logged ++ e ∷ []; loop = at_test }

-- The contract of net.Listener: `Accept` reports a closed listener after `Close`, and only then.
abbrev pub Allowed : Closer → Answer → Type 0
Allowed closed (conn c) = ⊥
Allowed closed (error e) = is_closed_error e ≡ true
Allowed _ (conn c) = Unit
Allowed _ (error e) = is_closed_error e ≡ false

-- A step, with the answers of `Accept` in it.
pub data Step (s : Server) : List Answer → Server → Type 0 where
  -- the loop
  enters : s.loop ≡ at_test → s.open_flag ≡ true → Step s [] (record s { loop = accepting })
  leaves : s.loop ≡ at_test → s.open_flag ≡ false → Step s [] (record s { loop = returned })
  answers :
      (a : Answer) → s.loop ≡ accepting → Allowed s.closer a → Step s (a ∷ []) (after_accept s a)
  -- the goroutine
  flags :
      s.closer ≡ waits
      → s.chan_closed ≡ true
      → Step s [] (record s { open_flag = false; closer = flagged })
  closes : s.closer ≡ flagged → Step s [] (record s { closer = closed })
  -- `close(chanClose)` in server/main.go
  signals : s.chan_closed ≡ false → Step s [] (record s { chan_closed = true })

-- With all the answers of `Accept` so far.
pub data Reach (s : Server) : List Answer → Server → Type 0 where
  here : Reach s [] s
  next : {t u : Server} {xs ys : List Answer} → Reach s xs t → Step t ys u → Reach s (xs ++ ys) u

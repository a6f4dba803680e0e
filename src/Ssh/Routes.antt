-- ===== src/Ssh/Routes.antt =====
-- The goroutines of `OpenTunnel` of server/ssh.go as a step relation: the two that wait to close the
-- client and the listener, the one that accepts, and those of each route. A step runs between two
-- points where another goroutine may come in.
use container_cloudlet.Common.{◌≡◌, Bool, true, false, List, [], ◌∷◌, ◌++◌, if◌then◌else◌}
use container_cloudlet.Go.{GoError, is_closed_error}

-- Where the goroutine of a route stands: in `Dial`, returned because that failed, behind the start of
-- the three goroutines, or with the one that closes returned too.
pub data Phase : Type 0 where
  dialling abandoned copying closed : Phase

pub record Route : Type 0 where
  pub phase : Phase
  pub local_open : Bool
  pub remote_open : Bool
  -- the two calls of `io.Copy` that have not returned
  pub to_remote : Bool
  pub to_local : Bool

-- For the connection that `Accept` gave.
unfoldable pub new_route : Route
new_route = record {
  phase = dialling;
  local_open = true;
  remote_open = false;
  to_remote = false;
  to_local = false;
}

unfoldable pub dialled : Route → Route
dialled r = record r { phase = copying; remote_open = true; to_remote = true; to_local = true }

-- `Dial` failed: the error is logged, and the goroutine returns.
unfoldable pub dial_failed : Route → Route
dial_failed r = record r { phase = abandoned }

unfoldable pub close_route : Route → Route
close_route r = record r { phase = closed; local_open = false; remote_open = false }

-- What may happen to a route, with the state of the client and of the channel.
pub data Move (client_open chan_closed : Bool) (r : Route) : Route → Type 0 where
  dials : r.phase ≡ dialling → client_open ≡ true → Move client_open chan_closed r (dialled r)
  dial_fails : r.phase ≡ dialling → Move client_open chan_closed r (dial_failed r)
  closes : r.phase ≡ copying → chan_closed ≡ true → Move client_open chan_closed r (close_route r)
  -- `io.Copy` returns; an error is logged, and nothing is closed.
  remote_copied :
      r.to_remote ≡ true → Move client_open chan_closed r (record r { to_remote = false })
  local_copied : r.to_local ≡ true → Move client_open chan_closed r (record r { to_local = false })

-- One of the routes moves.
pub data MoveIn (client_open chan_closed : Bool) : List Route → List Route → Type 0 where
  this :
      {r q : Route} (rs : List Route)
      → Move client_open chan_closed r q
      → MoveIn client_open chan_closed (r ∷ rs) (q ∷ rs)
  later :
      (r : Route) {rs qs : List Route}
      → MoveIn client_open chan_closed rs qs
      → MoveIn client_open chan_closed (r ∷ rs) (r ∷ qs)

-- Where the goroutine that accepts stands.
pub data Acceptor : Type 0 where
  at_test accepting returned : Acceptor

pub record Tunnelled : Type 0 where
  pub chan_closed : Bool
  pub client_open : Bool
  pub listening : Bool
  pub listener_open : Bool
  pub acceptor : Acceptor
  -- the errors of `Accept` that were logged
  pub logged : List GoError
  pub routes : List Route

-- When `OpenTunnel` returns without an error.
unfoldable pub tunnelled : Tunnelled
tunnelled = record {
  chan_closed = false;
  client_open = true;
  listening = true;
  listener_open = true;
  acceptor = at_test;
  logged = [];
  routes = [];
}

-- `Accept` failed: the goroutine returns at any error, and logs those that do not report a closed
-- listener.
unfoldable pub accept_failed : Tunnelled → GoError → Tunnelled
unfolding is_closed_error
accept_failed s e =
    if is_closed_error e
    then record s { acceptor = returned }
    else record s { acceptor = returned; logged = s.logged ++ e ∷ [] }

unfoldable pub accept_conn : Tunnelled → Tunnelled
unfolding new_route
accept_conn s = record s { acceptor = at_test; routes = s.routes ++ new_route ∷ [] }

pub data Step (s : Tunnelled) : Tunnelled → Type 0 where
  -- the program closes `closeChan`
  signals : s.chan_closed ≡ false → Step s (record s { chan_closed = true })
  closes_client : s.chan_closed ≡ true → Step s (record s { client_open = false })
  -- `listening = false`, and then `ln.Close()`
  clears : s.chan_closed ≡ true → Step s (record s { listening = false })
  closes_listener : s.listening ≡ false → Step s (record s { listener_open = false })
  enters : s.acceptor ≡ at_test → s.listening ≡ true → Step s (record s { acceptor = accepting })
  leaves : s.acceptor ≡ at_test → s.listening ≡ false → Step s (record s { acceptor = returned })
  accepts : s.acceptor ≡ accepting → s.listener_open ≡ true → Step s (accept_conn s)
  accept_fails : (e : GoError) → s.acceptor ≡ accepting → Step s (accept_failed s e)
  moves :
      {rs : List Route}
      → MoveIn s.client_open s.chan_closed s.routes rs
      → Step s (record s { routes = rs })

pub data Reach (s : Tunnelled) : Tunnelled → Type 0 where
  here : Reach s s
  next : {t u : Tunnelled} → Reach s t → Step t u → Reach s u

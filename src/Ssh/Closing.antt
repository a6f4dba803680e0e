-- ===== src/Ssh/Closing.antt =====
-- That a tunnel (server/ssh.go) can be closed from every state.
use container_cloudlet.Common.{◌≡◌, refl, subst, Bool, true, false, List, [], ◌∷◌, ◌⊎◌, inl, inr}
use container_cloudlet.Go.{GoError, new_error}
use container_cloudlet.Ssh.Routes.{
  Phase, dialling, abandoned, copying, closed, Route, dial_failed, close_route, dial_fails, closes,
  MoveIn, this, later, Acceptor, at_test, accepting, returned, Tunnelled, accept_failed,
  closes_client, clears, closes_listener, leaves, accept_fails, moves, Reach, here, next,
}

-- Its goroutines have nothing to do any more.
abbrev pub Done : Route → Type 0
Done r = (r.phase ≡ closed) ⊎ (r.phase ≡ abandoned)

abbrev pub AllDone : List Route → Type 0
AllDone [] = Unit
AllDone (r ∷ rs) = Done r × AllDone rs

pub record IsClosed (s : Tunnelled) : Type 0 where
  pub client : s.client_open ≡ false
  pub listener : s.listener_open ≡ false
  pub acceptor : s.acceptor ≡ returned
  pub routes : AllDone s.routes

-- Any number of moves of the routes.
data Moves (client_open chan_closed : Bool) (rs : List Route) : List Route → Type 0 where
  none : Moves client_open chan_closed rs rs
  more :
      {qs ps : List Route}
      → Moves client_open chan_closed rs qs
      → MoveIn client_open chan_closed qs ps
      → Moves client_open chan_closed rs ps

module _ {b c : Bool} where
  Moves-later : (r : Route) {rs qs : List Route} → Moves b c rs qs → Moves b c (r ∷ rs) (r ∷ qs)
  Moves-later r none = none
  Moves-later r (more ms m) = more (Moves-later r ms) (later r m)

  Moves-trans : {rs qs ps : List Route} → Moves b c rs qs → Moves b c qs ps → Moves b c rs ps
  Moves-trans m none = m
  Moves-trans m (more ms n) = more (Moves-trans m ms) n

module _ (b c : Bool) (h : c ≡ true) where
  finish_route :
      (ph : Phase) (r : Route) (rs : List Route)
      → r.phase ≡ ph
      → (q : Route) × Moves b c (r ∷ rs) (q ∷ rs) × Done q
  unfolding dial_failed close_route
  finish_route dialling r rs e = (dial_failed r, more none (this rs (dial_fails e)), inr refl)
  finish_route abandoned r rs e = (r, none, inr e)
  finish_route copying r rs e = (close_route r, more none (this rs (closes e h)), inl refl)
  finish_route closed r rs e = (r, none, inl e)

  finish_routes : (rs : List Route) → (qs : List Route) × Moves b c rs qs × AllDone qs
  finish_routes [] = ([], none, tt)
  finish_routes (r ∷ rs) =
      let (qs, m, d) = finish_routes rs in
      let (q, n, e) = finish_route r.phase r qs refl in
      (q ∷ qs, Moves-trans (Moves-later r m) n, (e, d))

Reach-trans : {s t u : Tunnelled} → Reach s t → Reach t u → Reach s u
Reach-trans r here = r
Reach-trans r (next q st) = next (Reach-trans r q) st

run_moves :
    (s : Tunnelled) {qs : List Route}
    → Moves s.client_open s.chan_closed s.routes qs
    → Reach s (record s { routes = qs })
run_moves s none = here
run_moves s (more ms m) = next (run_moves s ms) (moves m)

closed_listener : GoError
closed_listener = new_error "use of closed network connection"

stop_accepting :
    (a : Acceptor) (s : Tunnelled)
    → s.acceptor ≡ a
    → s.listening ≡ false
    → Reach s (record s { acceptor = returned })
unfolding accept_failed closed_listener
stop_accepting at_test s e h = next here (leaves e h)
stop_accepting accepting s e h = next here (accept_fails closed_listener e)
stop_accepting returned s e h = subst (λ a. Reach s (record s { acceptor = a })) e here

close_ends :
    (s : Tunnelled)
    → s.chan_closed ≡ true
    → Reach s (record s { client_open = false; listening = false; listener_open = false })
close_ends s h = next (next (next here (closes_client h)) (clears h)) (closes_listener refl)

-- From every state in which the channel of the tunnel is closed, whatever its routes are doing, its
-- goroutines can run to their ends: the client and the listener are closed, no connection is accepted
-- any more, and each route is closed or was given up after a failed `Dial`.
pub close-IsClosed :
    (s : Tunnelled) → s.chan_closed ≡ true → (t : Tunnelled) × Reach s t × IsClosed t
close-IsClosed s h =
    let (qs, m, d) = finish_routes false s.chan_closed h s.routes in
    let ended = record s { client_open = false; listening = false; listener_open = false } in
    let quiet = record ended { acceptor = returned } in
    (
      record quiet { routes = qs },
      Reach-trans (close_ends s h)
          (Reach-trans (stop_accepting s.acceptor ended refl refl) (run_moves quiet m)),
      record { client = refl; listener = refl; acceptor = refl; routes = d },
    )

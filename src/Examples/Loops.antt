-- ===== src/Examples/Loops.antt =====
-- Runs of the accept loop of server/api-server.go and of the tunnels of server/ssh.go.
use container_cloudlet.Common.{◌≡◌, refl, true, List, [], ◌∷◌}
use container_cloudlet.Go.{GoError, new_error}
use container_cloudlet.ApiServer.Accept.{
  Server, started, start_api_server, Answer, conn, error, after_accept, enters, answers, Reach,
  here, next, accepting,
}
use container_cloudlet.ApiServer.Serving.{conns, other_errors, served-in_order}
use container_cloudlet.Ssh.Routes
use container_cloudlet.Ssh.Routes.{
  Route, Tunnelled, tunnelled, new_route, dialled, dial_failed, accept_conn, abandoned,
}
use container_cloudlet.Ssh.Held.{Sound, reach-Sound}
use container_cloudlet.Ssh.Closing.{IsClosed, close-IsClosed}

abbrev reset : GoError
reset = new_error "connection reset by peer"

abbrev seen : List Answer
seen = conn 7 ∷ error reset ∷ []

-- A connection and an error, and `Accept` once more.
abbrev busy : Server
busy = record started { loop = accepting; handled = 7 ∷ []; logged = reset ∷ [] }

busy-Reach : Reach started seen busy
unfolding after_accept
busy-Reach =
    let one = next (next here (enters refl refl)) (answers (conn 7) refl tt) in
    next (next (next one (enters refl refl)) (answers (error reset) refl refl)) (enters refl refl)

served-in_order_example : (busy.handled ≡ conns seen) × (busy.logged ≡ other_errors seen)
unfolding start_api_server
served-in_order_example = served-in_order refl busy-Reach

-- Two connections, of which the second was given up.
abbrev two_routes : Tunnelled
unfolding tunnelled new_route dialled dial_failed
two_routes = record tunnelled { routes = dialled new_route ∷ dial_failed new_route ∷ [] }

two_routes-Reach : Routes.Reach tunnelled two_routes
unfolding tunnelled accept_conn new_route two_routes
two_routes-Reach =
    let one =
      Routes.next (Routes.next Routes.here (Routes.enters refl refl)) (Routes.accepts refl refl) in
    let two = Routes.next (Routes.next one (Routes.enters refl refl)) (Routes.accepts refl refl) in
    let open_one = Routes.next two (Routes.moves (Routes.this _ (Routes.dials refl refl))) in
    Routes.next open_one (Routes.moves (Routes.later _ (Routes.this [] (Routes.dial_fails refl))))

reach-Sound_example : Sound two_routes
reach-Sound_example = reach-Sound two_routes-Reach

close-IsClosed_example :
    (t : Tunnelled) × Routes.Reach (record two_routes { chan_closed = true }) t × IsClosed t
close-IsClosed_example = close-IsClosed (record two_routes { chan_closed = true }) refl

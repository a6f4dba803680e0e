-- ===== src/ApiServer/Stopping.antt =====
-- How the accept loop of server/api-server.go comes to its end.
use container_cloudlet.Common.{
  ◌≡◌, refl, sym, subst, ◌∙◌, true, false, none, List, [], ◌++◌, append_assoc, append-nil, arith,
}
use container_cloudlet.Go.{GoError, ok, new_error, is_closed_error}
use container_cloudlet.ApiServer.Accept.{
  Loop, at_test, accepting, returned, Closer, waits, flagged, closed, Server, start_api_server,
  Answer, error, after_accept, Allowed, Step, leaves, answers, flags, closes, Reach, here, next,
}
use container_cloudlet.ApiServer.Serving.{InStep, Reach-InStep}

abbrev listener_closed : GoError
listener_closed = new_error "use of closed network connection"

is_closed_error-listener_closed : is_closed_error listener_closed ≡ true
unfolding is_closed_error
is_closed_error-listener_closed = refl

-- Steps to a state in which the loop has returned, with no new handler.
abbrev Stops : Server → Type 0
Stops s =
    (t : Server) × (xs : List Answer) × Reach s xs t × (t.loop ≡ returned) × (t.handled ≡ s.handled)

first : {s t u : Server} {xs ys : List Answer} → Step s xs t → Reach t ys u → Reach s (xs ++ ys) u
first {s} {t} {xs = xs} st here = subst (λ zs. Reach s zs t) (sym (append-nil xs)) (next here st)
first {s} {u = u} {xs = xs} st (next {xs = ys} {ys = zs} r st') =
    subst (λ zs. Reach s zs u) (append_assoc xs ys zs) (next (first st r) st')

Step-Stops :
    {s t : Server} {xs : List Answer} → Step s xs t → t.handled ≡ s.handled → Stops t → Stops s
Step-Stops {xs} st e (u, ys, r, h, k) = (u, xs ++ ys, first st r, h, k ∙ e)

closed-Stops :
    (l : Loop) (s : Server) → s.loop ≡ l → s.closer ≡ closed → s.open_flag ≡ false → Stops s
unfolding after_accept
closed-Stops returned s e h k = (s, [], here, e, refl)
closed-Stops at_test s e h k =
    Step-Stops (leaves e k) refl (record s { loop = returned }, [], here, refl, refl)
closed-Stops accepting s e h k =
    let a : Allowed s.closer (error listener_closed) = rw h is_closed_error-listener_closed in
    Step-Stops (answers (error listener_closed) e a) refl
      (after_accept s (error listener_closed), [], here, ground arith, ground arith)

flagged-Stops : (s : Server) → s.closer ≡ flagged → s.open_flag ≡ false → Stops s
flagged-Stops s h k = Step-Stops (closes h) refl (closed-Stops s.loop _ refl refl k)

Stops-from : (c : Closer) (s : Server) → s.closer ≡ c → InStep c s → s.chan_closed ≡ true → Stops s
Stops-from waits s h v k = Step-Stops (flags h k) refl (flagged-Stops _ refl refl)
Stops-from flagged s h v k = flagged-Stops s h v.0
Stops-from closed s h v k = closed-Stops s.loop s refl h v.0

-- From every state that the server can reach, once the program has closed the channel, there are steps
-- after which the loop has returned, without one more connection: nothing it waits for fails to come.
close-Stops :
    {s t : Server} {xs : List Answer}
    → start_api_server none ≡ ok s
    → Reach s xs t
    → t.chan_closed ≡ true
    → Stops t
close-Stops {t} e r k = Stops-from t.closer t refl (Reach-InStep e r) k

-- ===== src/ApiServer/Serving.antt =====
-- What the accept loop of server/api-server.go serves, and when it returns.
use container_cloudlet.Common.{
  ℕ, ◌≡◌, ◌≢◌, refl, sym, ap, subst, ◌∙◌, true, false, none, List, [], ◌∷◌, ◌++◌, append-nil, arith,
  inl, inr, if◌then◌else◌, Bool-cases,
}
use container_cloudlet.Go.{GoError, ok, is_closed_error}
use container_cloudlet.ApiServer.Accept.{
  accepting, returned, Closer, waits, flagged, closed, Server, start_api_server, Answer, conn,
  error, after_accept, Allowed, Step, enters, leaves, answers, flags, closes, signals, Reach, here,
  next,
}

-- The connections among the answers, and the errors that do not report a closed listener, in order.
abbrev pub conns : List Answer → List ℕ
conns [] = []
conns (conn c ∷ xs) = c ∷ conns xs
conns (error e ∷ xs) = conns xs

abbrev pub other_errors : List Answer → List GoError
other_errors [] = []
other_errors (conn c ∷ xs) = other_errors xs
other_errors (error e ∷ xs) =
    let rest = other_errors xs in if is_closed_error e then rest else e ∷ rest

conns-append : (xs ys : List Answer) → conns (xs ++ ys) ≡ conns xs ++ conns ys
conns-append [] ys = refl
conns-append (conn c ∷ xs) ys = ap (◌∷◌ c) (conns-append xs ys)
conns-append (error e ∷ xs) ys = conns-append xs ys

other_errors-append :
    (xs ys : List Answer) → other_errors (xs ++ ys) ≡ other_errors xs ++ other_errors ys
other_errors-append [] ys = refl
other_errors-append (conn c ∷ xs) ys = other_errors-append xs ys
other_errors-append (error e ∷ xs) ys = elim (Bool-cases (is_closed_error e)) [
  | inl h ↦ rw h (other_errors-append xs ys)
  | inr h ↦ rw h (ap (◌∷◌ e) (other_errors-append xs ys))
]

-- What one step adds to both.
record Adds (s : Server) (xs : List Answer) (t : Server) : Type 0 where
  handled : t.handled ≡ s.handled ++ conns xs
  logged : t.logged ≡ s.logged ++ other_errors xs

after_accept-Adds : (s : Server) (a : Answer) → Adds s (a ∷ []) (after_accept s a)
unfolding after_accept
after_accept-Adds s (conn c) = record { handled = refl; logged = sym (append-nil s.logged) }
after_accept-Adds s (error e) = record {
  handled = ground (arith, append-nil s.handled);
  logged = ground (arith, append-nil s.logged);
}

Step-Adds : {s t : Server} {xs : List Answer} → Step s xs t → Adds s xs t
Step-Adds {s} (answers a h k) = after_accept-Adds s a
Step-Adds {s} _ = record {
  handled = sym (append-nil s.handled);
  logged = sym (append-nil s.logged);
}

-- In every run of the server from its start: each connection that `Accept` gave is handed to a handler
-- exactly once, in order, whatever errors came in between, and exactly the errors that do not report a
-- closed listener are logged.
pub served-in_order :
    {s t : Server} {xs : List Answer}
    → start_api_server none ≡ ok s
    → Reach s xs t
    → (t.handled ≡ conns xs) × (t.logged ≡ other_errors xs)
unfolding start_api_server
served-in_order e here = ground arith
served-in_order e (next {xs} {ys} r st) =
    let (h, k) = served-in_order e r in
    let a = Step-Adds st in
    (
      a.handled ∙ ap (λ (l : List ℕ). l ++ conns ys) h ∙ sym (conns-append xs ys),
      a.logged
          ∙ ap (λ (l : List GoError). l ++ other_errors ys) k
          ∙ sym (other_errors-append xs ys),
    )

-- The flag and the goroutine go together, and only a closed channel sets them going.
abbrev pub InStep : Closer → Server → Type 0
InStep waits s = (s.open_flag ≡ true) × (s.loop ≢ returned)
InStep flagged s = (s.open_flag ≡ false) × (s.chan_closed ≡ true)
InStep closed s = (s.open_flag ≡ false) × (s.chan_closed ≡ true)

after_accept-InStep :
    (c : Closer) (s : Server) (a : Answer) → Allowed c a → InStep c s → InStep c (after_accept s a)
unfolding after_accept
after_accept-InStep waits s (conn n) h v = ground arith
after_accept-InStep waits s (error e) h v = ground arith
after_accept-InStep flagged s (conn n) h v = ground arith
after_accept-InStep flagged s (error e) h v = ground arith
after_accept-InStep closed s (conn n) h v = elim h [ ]
after_accept-InStep closed s (error e) h v = ground arith

closer-after_accept : (s : Server) (a : Answer) → (after_accept s a).closer ≡ s.closer
unfolding after_accept
closer-after_accept s (conn n) = refl
closer-after_accept s (error e) = ground arith

enters-InStep : (c : Closer) (s : Server) → InStep c s → InStep c (record s { loop = accepting })
enters-InStep waits s v = (v.0, λ p. cc)
enters-InStep flagged s v = v
enters-InStep closed s v = v

leaves-InStep :
    (c : Closer) (s : Server)
    → s.open_flag ≡ false
    → InStep c s
    → InStep c (record s { loop = returned })
leaves-InStep waits s h v = cc
leaves-InStep flagged s h v = v
leaves-InStep closed s h v = v

signals-InStep : (c : Closer) (s : Server) → InStep c s → InStep c (record s { chan_closed = true })
signals-InStep waits s v = v
signals-InStep flagged s v = (v.0, refl)
signals-InStep closed s v = (v.0, refl)

Step-InStep :
    {s t : Server} {xs : List Answer} → Step s xs t → InStep s.closer s → InStep t.closer t
Step-InStep {s} (enters h k) v = enters-InStep s.closer s v
Step-InStep {s} (leaves h k) v = leaves-InStep s.closer s k v
Step-InStep {s} (answers a h k) v =
    subst (λ c. InStep c (after_accept s a)) (sym (closer-after_accept s a))
      (after_accept-InStep s.closer s a k v)
Step-InStep (flags h k) v = (refl, k)
Step-InStep {s} (closes h) v = subst (λ c. InStep c s) h v
Step-InStep {s} (signals h) v = signals-InStep s.closer s v

pub Reach-InStep :
    {s t : Server} {xs : List Answer}
    → start_api_server none ≡ ok s
    → Reach s xs t
    → InStep t.closer t
unfolding start_api_server
Reach-InStep {s} e here = ground arith
Reach-InStep e (next r st) = Step-InStep st (Reach-InStep e r)

returned-InStep :
    (c : Closer) (s : Server)
    → InStep c s
    → s.loop ≡ returned
    → (s.chan_closed ≡ true) × (s.open_flag ≡ false)
returned-InStep waits s v h = absurd (v.1 h)
returned-InStep flagged s v h = (v.1, v.0)
returned-InStep closed s v h = (v.1, v.0)

-- The loop returns only after the program has closed its channel: no error of `Accept` and no client
-- makes the server stop serving before.
pub returned-closed :
    {s t : Server} {xs : List Answer}
    → start_api_server none ≡ ok s
    → Reach s xs t
    → t.loop ≡ returned
    → (t.chan_closed ≡ true) × (t.open_flag ≡ false)
returned-closed {t} e r h = returned-InStep t.closer t (Reach-InStep e r) h

closed_answer :
    (s : Server) (a : Answer)
    → s.loop ≡ accepting
    → Allowed closed a
    → (s.loop ≢ returned)
      × ((after_accept s a).loop ≡ returned)
      × ((after_accept s a).handled ≡ s.handled)
unfolding after_accept
closed_answer s (conn n) h k = elim k [ ]
closed_answer s (error e) h k = ground arith

ending :
    (s : Server) {t : Server} {xs : List Answer}
    → Step s xs t
    → s.closer ≡ closed
    → InStep closed s
    → (s.loop ≢ returned) × (t.loop ≡ returned) × (t.handled ≡ s.handled)
unfolding after_accept
ending s (enters h k) e v = ground arith
ending s (leaves h k) e v = ground arith
ending s (answers a h k) e v = closed_answer s a h (subst (λ c. Allowed c a) e k)
ending s (flags h k) e v = ground arith
ending s (closes h) e v = ground arith
ending s (signals h) e v = ground arith

-- Once the goroutine has closed the listener, no connection is handed to a handler any more, and
-- whatever happens next is that the loop returns.
shut_down-returns :
    {s t u : Server} {xs ys : List Answer}
    → start_api_server none ≡ ok s
    → Reach s xs t
    → t.closer ≡ closed
    → Step t ys u
    → (t.loop ≢ returned) × (u.loop ≡ returned) × (u.handled ≡ t.handled)
shut_down-returns {t} e r h st = ending t st h (subst (λ c. InStep c t) h (Reach-InStep e r))

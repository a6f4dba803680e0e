-- ===== src/FwdSvc/Shut.antt =====
-- What becomes of a service of server/fwdsvc.go after `Close`.
use container_cloudlet.Common.{
  ℕ, ◌+◌, ◌≤◌, ◌≡◌, ◌≢◌, refl, subst, Bool, true, false, List, [], ◌∷◌, arith, length,
  length-append,
}
use container_cloudlet.Go.{ok}
use container_cloudlet.FwdSvc.{
  ForwarderService, Entry, TcpAddr, request_suspend, resume, close, close_all_forwarders,
  change_server_addr, change_data_rate, push_forwarder,
}
use container_cloudlet.FwdSvc.System.{
  starts_closing, broadcast, Listener, at_lock, parked, woken, accepting, accepted, stopped,
  outside, System, AllFinished, Change, moves, removed, later, Step, pass, park, leave, park_again,
  times_out, accepts_conn, pushes, stops, suspends, receives, closes, drains, changes_addr,
  changes_rate, resumes, shuts, shuts_socket, forwards, IsStarted, Reach, here, next,
}
use container_cloudlet.FwdSvc.Safety.{outside-Quiet}
use container_cloudlet.FwdSvc.Entries.{length-Change}
use container_cloudlet.FwdSvc.Drain.{length-closes}
use container_cloudlet.FwdSvc.Lives.{Reach-AllLive}
use container_cloudlet.FwdSvc.Progress.{
  Changes, stay, more, Changes-later, Changes-trans, all_finish, run_changes,
}

-- Nothing of the service is left: the listener has returned, the socket is closed, and no forwarder is
-- listed.
abbrev pub IsOver : System → Type 0
IsOver s = (s.listener ≡ stopped) × (s.listening ≡ false) × (s.svc.fwdrs ≡ [])

closed-none : (p q : ForwarderService) → close_all_forwarders p ≡ ok q → p.fwdrs ≡ [] → q.fwdrs ≡ []
unfolding close_all_forwarders
closed-none p q h e = ground arith

Change-none : {a : TcpAddr} {es fs : List Entry} → Change a es fs → es ≡ [] → fs ≡ []
Change-none (moves e ev h) k = cc
Change-none (removed e h) k = cc
Change-none (later e c) k = cc

Step-IsOver : {s t : System} → Step s t → IsOver s → IsOver t
unfolding request_suspend resume close change_server_addr change_data_rate push_forwarder
Step-IsOver {s} (closes {p} c h) (l, o, e) = (l, o, closed-none s.svc p h e)
Step-IsOver (forwards ch) (l, o, e) = (l, o, Change-none ch e)
Step-IsOver (pass l f) k = ground arith
Step-IsOver (park l f h) k = ground arith
Step-IsOver (leave l f) k = ground arith
Step-IsOver (park_again l f) k = ground arith
Step-IsOver (times_out l o) k = ground arith
Step-IsOver (accepts_conn l o) k = ground arith
Step-IsOver (pushes l) k = absurd (cc)
Step-IsOver (stops l) k = ground arith
Step-IsOver (suspends c) k = ground arith
Step-IsOver (receives c h) k = ground arith
Step-IsOver (starts_closing c f) k = ground arith
Step-IsOver (drains c h) k = ground arith
Step-IsOver (changes_addr a c h) k = ground arith
Step-IsOver (changes_rate r c h) k = ground arith
Step-IsOver (resumes c) k = ground arith
Step-IsOver (shuts h) k = ground arith
Step-IsOver (shuts_socket h o) k = ground arith

Reach-IsOver : {s t : System} → IsOver s → Reach s t → IsOver t
Reach-IsOver k here = k
Reach-IsOver k (next r st) = Step-IsOver st (Reach-IsOver k r)

Reach-trans : {s t u : System} → Reach s t → Reach t u → Reach s u
Reach-trans r here = r
Reach-trans r (next q st) = next (Reach-trans r q) st

-- The listener runs to its return.
listener_returns :
    (t : System)
    → t.svc.is_suspended ≡ false
    → t.listener ≢ parked
    → (l : Listener) → t.listener ≡ l
    → (u : System) × Reach t u × (u.listener ≡ stopped) × (u.listening ≡ t.listening)
unfolding push_forwarder
listener_returns t f n at_lock e = (_, next (next here (pass e f)) (stops refl), refl, refl)
listener_returns t f n parked e = absurd (n e)
listener_returns t f n woken e = (_, next (next here (leave e f)) (stops refl), refl, refl)
listener_returns t f n accepting e = (_, next here (stops e), refl, refl)
listener_returns t f n accepted e =
    (_, next (next (next here (pushes e)) (pass refl f)) (stops refl), refl, refl)
listener_returns t f n stopped e = (t, here, e, refl)

socket_shut :
    (t : System)
    → t.svc.chan_close ≡ true
    → (b : Bool) → t.listening ≡ b
    → Reach t (record t { listening = false })
socket_shut t c true e = next here (shuts_socket c e)
socket_shut t c false e = subst (λ b. Reach t (record t { listening = b })) e here

all_removed : (a : TcpAddr) (es : List Entry) → AllFinished es → Changes a es []
all_removed a [] f = stay
all_removed a (e ∷ es) (f, fs) = more (Changes-later e (all_removed a es fs)) (removed e f)

-- Once `Close` was called while no migration holds the service, it can come to its end, whatever the
-- listener and the forwarders are doing, and then nothing of it ever comes back.
pub close-Ends :
    {s t : System}
    → IsStarted s
    → Reach s t
    → t.controller ≡ outside
    → t.svc.chan_close ≡ true
    → (u : System) × Reach t u × IsOver u × ((v : System) → Reach u v → IsOver v)
close-Ends {t = t} i r c k =
    let (f, e, n) = outside-Quiet i r c in
    let shut = socket_shut t k t.listening refl in
    let (u, q, l, o) = listener_returns (record t { listening = false }) f n t.listener refl in
    let all = Reach-trans shut q in
    let (fs, d, h) =
      all_finish u.svc.server_addr u.svc.fwdrs (Reach-AllLive i (Reach-trans r all)) in
    let gone = run_changes u (Changes-trans d (all_removed u.svc.server_addr fs h)) in
    (_, Reach-trans all gone, (l, o, refl), λ v w. Reach-IsOver (l, o, refl) w)

-- The forwarders that are listed, and the connection that is about to be.
abbrev in_hand : Listener → ℕ
in_hand accepted = 1
in_hand _ = 0

abbrev pub size : System → ℕ
size s = length s.svc.fwdrs + in_hand s.listener

abbrev IsShut : System → System → Type 0
IsShut s t = (t.listening ≡ false) × (size t ≤ size s)

in_hand-broadcast : (l : Listener) → in_hand (broadcast l) ≡ in_hand l
in_hand-broadcast parked = refl
in_hand-broadcast at_lock = refl
in_hand-broadcast woken = refl
in_hand-broadcast accepting = refl
in_hand-broadcast accepted = refl
in_hand-broadcast stopped = refl

length-push : (p : ForwarderService) → length (push_forwarder p).fwdrs ≡ length p.fwdrs + 1
unfolding push_forwarder
length-push p = length-append p.fwdrs _

Step-size : {s t : System} → Step s t → s.listening ≡ false → IsShut s t
unfolding request_suspend resume close change_server_addr change_data_rate
Step-size {s} (closes {p} c h) e = (e, omega (arith, length-closes s.svc p h))
Step-size (forwards ch) e = (e, omega (arith, length-Change ch))
Step-size (pass l f) e = (e, rw l (omega arith))
Step-size (park l f h) e = (e, rw l (omega arith))
Step-size (leave l f) e = (e, rw l (omega arith))
Step-size (park_again l f) e = (e, rw l (omega arith))
Step-size (times_out l o) e = absurd (cc)
Step-size (accepts_conn l o) e = absurd (cc)
Step-size {s} (pushes l) e = (e, rw l (omega (arith, length-push s.svc)))
Step-size (stops l) e = (e, rw l (omega arith))
Step-size {s} (suspends c) e = (e, omega (arith, in_hand-broadcast s.listener))
Step-size (receives c h) e = (e, omega arith)
Step-size (starts_closing c f) e = (e, omega arith)
Step-size (drains c h) e = (e, omega arith)
Step-size {s} (changes_addr {p} a c h) e =
    let same : p.fwdrs ≡ s.svc.fwdrs = ground arith in (e, rw same (omega arith))
Step-size {s} (changes_rate {p} r c h) e =
    let same : p.fwdrs ≡ s.svc.fwdrs = ground arith in (e, rw same (omega arith))
Step-size {s} (resumes c) e = (e, omega (arith, in_hand-broadcast s.listener))
Step-size {s} (shuts {p} h) e =
    let same : p.fwdrs ≡ s.svc.fwdrs = ground arith in (e, rw same (omega arith))
Step-size (shuts_socket h o) e = (refl, omega arith)

-- Once the socket is closed no connection is accepted any more: from then on there are never more
-- forwarders than were listed, and the one of the connection that the listener had accepted.
shut-size :
    {s t : System} → Reach s t → s.listening ≡ false → (t.listening ≡ false) × (size t ≤ size s)
shut-size here e = (e, omega arith)
shut-size (next r st) e =
    let (o, h) = shut-size r e in let (p, k) = Step-size st o in (p, omega (arith, h, k))

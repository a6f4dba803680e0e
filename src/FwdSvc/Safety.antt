-- ===== src/FwdSvc/Safety.antt =====
-- What holds in every state that the threads of server/fwdsvc.go can reach.
use container_cloudlet.Common.{ℕ, ◌≡◌, ◌≢◌, refl, Bool, true, false, arith, ◌⊎◌, subst}
use container_cloudlet.FwdSvc.{
  request_suspend, resume, close, close_all_forwarders, change_server_addr, change_data_rate,
  push_forwarder,
}
use container_cloudlet.FwdSvc.System.{
  starts_closing, Listener, at_lock, parked, Controller, outside, suspending, suspended, closing,
  drained, System, Step, pass, park, leave, park_again, times_out, accepts_conn, pushes, stops,
  suspends, receives, closes, drains, changes_addr, changes_rate, resumes, shuts, shuts_socket,
  forwards, IsStarted, Reach, here, next,
}

-- How the flag, the channel and the listener stand, by where the controller is.
abbrev Quiet : Controller → Bool → ℕ → Listener → Type 0
Quiet outside flag held l = (flag ≡ false) × (held ≡ 0) × (l ≢ parked)
Quiet suspending flag held l = (flag ≡ true) × ((held ≡ 0) ⊎ ((held ≡ 1) × (l ≡ parked)))
Quiet _ flag held l = (flag ≡ true) × (held ≡ 0) × (l ≡ parked)

abbrev IsQuiet : System → Type 0
IsQuiet s = Quiet s.controller s.svc.is_suspended s.svc.chan_suspend s.listener

Step-IsQuiet : {s t : System} → Step s t → IsQuiet s → IsQuiet t
unfolding request_suspend resume close close_all_forwarders change_server_addr change_data_rate
    push_forwarder
Step-IsQuiet (pass l f) q = ground arith
Step-IsQuiet (park l f h) q = ground arith
Step-IsQuiet (leave l f) q = ground arith
Step-IsQuiet (park_again l f) q = ground arith
Step-IsQuiet (times_out l o) q = ground arith
Step-IsQuiet (accepts_conn l o) q = ground arith
Step-IsQuiet (pushes l) q = ground arith
Step-IsQuiet (stops l) q = ground arith
Step-IsQuiet (suspends c) q = ground arith
Step-IsQuiet (receives c h) q = ground arith
Step-IsQuiet (closes c h) q = ground arith
Step-IsQuiet (starts_closing c f) q = ground arith
Step-IsQuiet (drains c h) q = ground arith
Step-IsQuiet (changes_addr a c h) q = ground arith
Step-IsQuiet (changes_rate r c h) q = ground arith
Step-IsQuiet (resumes c) q = ground arith
Step-IsQuiet (shuts h) q = ground arith
Step-IsQuiet (shuts_socket h o) q = q
Step-IsQuiet (forwards h) q = q

Reach-IsQuiet : {s t : System} → IsStarted s → Reach s t → IsQuiet t
Reach-IsQuiet i here = ground arith
Reach-IsQuiet i (next r st) = Step-IsQuiet st (Reach-IsQuiet i r)

-- The controller is behind `Suspend` and has not called `Resume`.
abbrev pub IsBehind : Controller → Type 0
IsBehind outside = ⊥
IsBehind suspending = ⊥
IsBehind _ = Unit

-- From the return of `Suspend` to the call of `Resume` the listener waits for `Resume`, so it
-- neither accepts a connection nor holds one that it has not listed, and the flag is set.
pub suspended-parked :
    {s t : System}
    → IsStarted s
    → Reach s t
    → IsBehind t.controller
    → (t.listener ≡ parked) × (t.svc.is_suspended ≡ true)
suspended-parked {t} i r b = behind t.controller (Reach-IsQuiet i r) b
  where
    behind :
        (c : Controller)
        → Quiet c t.svc.is_suspended t.svc.chan_suspend t.listener
        → IsBehind c
        → (t.listener ≡ parked) × (t.svc.is_suspended ≡ true)
    behind outside q b = absurd b
    behind suspending q b = absurd b
    behind suspended q b = (q.2, q.0)
    behind closing q b = (q.2, q.0)
    behind drained q b = (q.2, q.0)

-- The listener's send into `chanSuspend`, which it makes under the lock, finds the channel empty.
park-room :
    {s t : System}
    → IsStarted s
    → Reach s t
    → t.listener ≡ at_lock
    → t.svc.is_suspended ≡ true
    → t.svc.chan_suspend ≡ 0
park-room {t} i r l f = room t.controller (Reach-IsQuiet i r)
  where
    room :
        (c : Controller)
        → Quiet c t.svc.is_suspended t.svc.chan_suspend t.listener
        → t.svc.chan_suspend ≡ 0
    room outside q = q.1
    room suspending q = ground arith
    room suspended q = q.1
    room closing q = q.1
    room drained q = q.1

-- Nothing is in the channel while the controller does not wait for it.
pub chan_empty :
    {s t : System} → IsStarted s → Reach s t → t.controller ≢ suspending → t.svc.chan_suspend ≡ 0
chan_empty {t} i r n = empty t.controller n (Reach-IsQuiet i r)
  where
    empty :
        (c : Controller)
        → c ≢ suspending
        → Quiet c t.svc.is_suspended t.svc.chan_suspend t.listener
        → t.svc.chan_suspend ≡ 0
    empty outside n q = q.1
    empty suspending n q = absurd (n refl)
    empty suspended n q = q.1
    empty closing n q = q.1
    empty drained n q = q.1

-- While it waits, the flag is set, and a value in the channel means that the listener is parked.
pub suspending-flag :
    {s t : System}
    → IsStarted s
    → Reach s t
    → t.controller ≡ suspending
    → (t.svc.is_suspended ≡ true)
      × ((t.svc.chan_suspend ≡ 0) ⊎ ((t.svc.chan_suspend ≡ 1) × (t.listener ≡ parked)))
suspending-flag {t} i r c =
    subst (λ x. Quiet x t.svc.is_suspended t.svc.chan_suspend t.listener) c (Reach-IsQuiet i r)

-- Nobody has suspended the service.
pub outside-Quiet :
    {s t : System}
    → IsStarted s
    → Reach s t
    → t.controller ≡ outside
    → (t.svc.is_suspended ≡ false) × (t.svc.chan_suspend ≡ 0) × (t.listener ≢ parked)
outside-Quiet {t} i r c =
    subst (λ x. Quiet x t.svc.is_suspended t.svc.chan_suspend t.listener) c (Reach-IsQuiet i r)

-- ===== src/FwdSvc/Hang.antt =====
-- When `Suspend` of server/fwdsvc.go returns, and when it waits for ever.
use container_cloudlet.Common.{◌≡◌, refl, true, false, arith, ◌⊎◌, inl, inr, sym, subst}
use container_cloudlet.FwdSvc.{request_suspend, resume, close, push_forwarder}
use container_cloudlet.FwdSvc.System.{
  starts_closing, broadcast, at_lock, parked, accepting, accepted, stopped, outside, suspending,
  suspended, drained, System, Step, pass, park, leave, park_again, times_out, accepts_conn, pushes,
  stops, suspends, receives, closes, drains, changes_addr, changes_rate, resumes, shuts,
  shuts_socket, forwards, IsStarted, Reach, here, next,
}
use container_cloudlet.FwdSvc.Safety.{IsBehind, suspended-parked, chan_empty, suspending-flag}

-- The listener has returned, or its call of `AcceptTCP` can only fail.
abbrev pub IsGone : System → Type 0
IsGone s = (s.listener ≡ stopped) ⊎ ((s.listener ≡ accepting) × (s.listening ≡ false))

-- The controller waits for a value that nobody will send.
record IsStuck (s : System) : Type 0 where
  waits : s.controller ≡ suspending
  flag : s.svc.is_suspended ≡ true
  empty : s.svc.chan_suspend ≡ 0
  asleep : (s.listener ≡ parked) ⊎ IsGone s

Step-IsStuck : {s t : System} → Step s t → IsStuck s → IsStuck t
unfolding close
Step-IsStuck (pass l f) k = ground arith
Step-IsStuck (park l f h) k = ground arith
Step-IsStuck (leave l f) k = ground arith
Step-IsStuck (park_again l f) k = ground arith
Step-IsStuck (times_out l o) k = ground arith
Step-IsStuck (accepts_conn l o) k = ground arith
Step-IsStuck (pushes l) k = ground arith
Step-IsStuck (stops l) k = ground arith
Step-IsStuck (suspends c) k = ground arith
Step-IsStuck (receives c h) k = ground arith
Step-IsStuck (closes c h) k = ground arith
Step-IsStuck (starts_closing c f) k = ground arith
Step-IsStuck (drains c h) k = ground arith
Step-IsStuck (changes_addr a c h) k = ground arith
Step-IsStuck (changes_rate r c h) k = ground arith
Step-IsStuck (resumes c) k = ground arith
Step-IsStuck (shuts h) k = ground arith
Step-IsStuck (shuts_socket h o) k = ground arith
Step-IsStuck (forwards h) k = record {
  waits = k.waits;
  flag = k.flag;
  empty = k.empty;
  asleep = k.asleep;
}

Reach-IsStuck : {s t : System} → IsStuck s → Reach s t → IsStuck t
Reach-IsStuck k here = k
Reach-IsStuck k (next r st) = Step-IsStuck st (Reach-IsStuck k r)

-- The controller can come to a state from which `Suspend` never returns, whatever happens then.
abbrev pub MayHang : System → Type 0
MayHang t = (u : System) × Reach t u × ((v : System) → Reach u v → v.controller ≡ suspending)

hangs : {t : System} (u : System) → Reach t u → IsStuck u → MayHang t
hangs u r k = (u, r, λ v q. (Reach-IsStuck k q).waits)

gone_broadcast :
    (s : System)
    → IsGone s
    → (broadcast s.listener ≡ stopped)
      ⊎ ((broadcast s.listener ≡ accepting) × (s.listening ≡ false))
gone_broadcast s (inl l) = inl (rw l refl)
gone_broadcast s (inr (l, o)) = inr (rw l refl, o)

-- A call of `Suspend` that comes after the listener has returned, or while it is in `AcceptTCP` on a socket
-- that is closed, never returns, whatever happens then.
pub suspend_hangs :
    {s t u : System}
    → IsStarted s
    → Reach s t
    → t.controller ≡ outside
    → IsGone t
    → Reach
        (record t {
          svc = request_suspend t.svc;
          listener = broadcast t.listener;
          controller = suspending;
        })
        u
    → u.controller ≡ suspending
unfolding request_suspend
suspend_hangs {t} i r c l q =
    let e : t.svc.chan_suspend ≡ 0 = chan_empty i r (λ p. cc) in
    let stuck : IsStuck (record t {
      svc = request_suspend t.svc;
      listener = broadcast t.listener;
      controller = suspending;
    }) =
      record { waits = refl; flag = refl; empty = e; asleep = inr (gone_broadcast t l) } in
    (Reach-IsStuck stuck q).waits

-- From every state behind `CloseAllForwarders` there is a run on which `Resume` is followed by a
-- `Suspend` that never returns: the listener was woken, finds the flag set again, and waits without
-- another send.
pub drained-MayHang : {s t : System} → IsStarted s → Reach s t → t.controller ≡ drained → MayHang t
unfolding request_suspend resume
drained-MayHang {t} i r c =
    let l : t.listener ≡ parked = (suspended-parked i r (subst IsBehind (sym c) tt)).0 in
    let e : t.svc.chan_suspend ≡ 0 = chan_empty i r (λ p. cc) in
    hangs _ (next (next (next here (resumes c)) (suspends refl)) (park_again (rw l refl) refl))
      (record { waits = refl; flag = refl; empty = e; asleep = inl refl })

answered :
    {t : System}
    → t.controller ≡ suspending
    → t.svc.is_suspended ≡ true
    → t.svc.chan_suspend ≡ 0
    → t.listener ≡ at_lock
    → (u : System) × Reach t u × (u.controller ≡ suspended)
answered {t} c f e l = (_, next (next here (park l f e)) (receives c refl), refl)

-- A call of `Suspend` that finds the listener at its lock, in `AcceptTCP` on a socket that is open, or
-- behind it can return: some run leads to its return.
suspend_returns :
    {s t : System}
    → IsStarted s
    → Reach s t
    → t.controller ≡ suspending
    → t.svc.chan_suspend ≡ 0
    → (t.listener ≡ at_lock)
      ⊎ (((t.listener ≡ accepting) × (t.listening ≡ true)) ⊎ (t.listener ≡ accepted))
    → (u : System) × Reach t u × (u.controller ≡ suspended)
unfolding push_forwarder
suspend_returns {t} i r c e (inl l) = answered c (suspending-flag i r c).0 e l
suspend_returns {t} i r c e (inr (inl (l, o))) = (
  _,
  next (next (next here (times_out l o)) (park refl (suspending-flag i r c).0 e)) (receives c refl),
  refl,
)
suspend_returns {t} i r c e (inr (inr l)) = (
  _,
  next (next (next here (pushes l)) (park refl (suspending-flag i r c).0 e)) (receives c refl),
  refl,
)

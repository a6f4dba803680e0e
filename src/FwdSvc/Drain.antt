-- ===== src/FwdSvc/Drain.antt =====
-- The forwarders of server/fwdsvc.go across a suspension.
use container_cloudlet.Common.{◌≤◌, ◌≡◌, refl, arith, inl, inr, length, subst, sym}
use container_cloudlet.Go.{ok}
use container_cloudlet.FwdSvc.{
  ForwarderService, request_suspend, resume, close, close_all_forwarders, change_server_addr,
  change_data_rate, push_forwarder,
}
use container_cloudlet.FwdSvc.System.{
  starts_closing, parked, drained, System, AllFinished, Step, pass, park, leave, park_again,
  times_out, accepts_conn, pushes, stops, suspends, receives, closes, drains, changes_addr,
  changes_rate, resumes, shuts, shuts_socket, forwards, IsStarted, Reach, here, next,
}
use container_cloudlet.FwdSvc.Safety.{IsBehind, suspended-parked}
use container_cloudlet.FwdSvc.Lives.{AllLive, Reach-AllLive, AllClosed-AllFinished}
use container_cloudlet.FwdSvc.Entries.{
  length-Change, close_entries-shape, length-SameShape, AllFinished-Change, AllAimed,
  AllAimed-Change, AllAimed-SameShape, AllAimed-push, AllAimed-finished, close_all-entries,
}

-- Whoever waits behind `CloseAllForwarders` sees finished forwarders only, and the others aim at the
-- address in the service.
record IsOrderly (s : System) : Type 0 where
  done : s.controller ≡ drained → AllFinished s.svc.fwdrs
  aimed : AllAimed s.svc.server_addr s.svc.fwdrs

Step-IsOrderly :
    {s t : System}
    → (IsBehind s.controller → s.listener ≡ parked)
    → AllLive s.svc.fwdrs
    → Step s t
    → IsOrderly s
    → IsOrderly t
unfolding request_suspend resume close change_server_addr change_data_rate push_forwarder
Step-IsOrderly b ls (pass l f) o = record { done = o.done; aimed = o.aimed }
Step-IsOrderly b ls (park l f h) o = record { done = o.done; aimed = o.aimed }
Step-IsOrderly b ls (leave l f) o = record { done = o.done; aimed = o.aimed }
Step-IsOrderly b ls (park_again l f) o = record { done = o.done; aimed = o.aimed }
Step-IsOrderly b ls (times_out l h) o = record { done = o.done; aimed = o.aimed }
Step-IsOrderly b ls (accepts_conn l h) o = record { done = o.done; aimed = o.aimed }
Step-IsOrderly {s} b ls (pushes l) o = record {
  done = λ c. let p : s.listener ≡ parked = b (subst IsBehind (sym c) tt) in cc;
  aimed = AllAimed-push s.svc.server_addr s.svc.fwdrs _ o.aimed (inr (inl (refl, refl)));
}
Step-IsOrderly b ls (stops l) o = record { done = o.done; aimed = o.aimed }
Step-IsOrderly b ls (suspends c) o = record { done = λ e. cc; aimed = o.aimed }
Step-IsOrderly b ls (receives c h) o = record { done = λ e. cc; aimed = o.aimed }
Step-IsOrderly {s} b ls (closes {p} c h) o =
    let (es, a) = close_all-entries s.svc p h in
    record {
      done = λ e. cc;
      aimed = rw a (
          AllAimed-SameShape s.svc.server_addr s.svc.fwdrs p.fwdrs
            (close_entries-shape s.svc.fwdrs p.fwdrs es) o.aimed);
    }
Step-IsOrderly b ls (starts_closing c f) o = record { done = λ e. cc; aimed = o.aimed }
Step-IsOrderly {s} b l (drains c h) o = record {
  done = λ e. AllClosed-AllFinished s.svc.fwdrs l h;
  aimed = o.aimed;
}
Step-IsOrderly {s} b ls (changes_addr {p} a c h) o =
    let same : p.fwdrs ≡ s.svc.fwdrs = ground arith in
    record {
      done = λ e. rw same (o.done c);
      aimed = rw same (AllAimed-finished p.server_addr s.svc.fwdrs (o.done c));
    }
Step-IsOrderly {s} b ls (changes_rate {p} r c h) o =
    let same : p.fwdrs ≡ s.svc.fwdrs = ground arith in
    let addr : p.server_addr ≡ s.svc.server_addr = ground arith in
    record { done = λ e. rw same (o.done c); aimed = rw (same, addr) o.aimed }
Step-IsOrderly b ls (resumes c) o = record { done = λ e. cc; aimed = o.aimed }
Step-IsOrderly {s} b ls (shuts {p} h) o =
    let same : p.fwdrs ≡ s.svc.fwdrs = ground arith in
    let addr : p.server_addr ≡ s.svc.server_addr = ground arith in
    record { done = λ e. rw same (o.done e); aimed = rw (same, addr) o.aimed }
Step-IsOrderly b ls (shuts_socket h k) o = record { done = o.done; aimed = o.aimed }
Step-IsOrderly {s} b ls (forwards ch) o = record {
  done = λ e. AllFinished-Change ch (o.done e);
  aimed = AllAimed-Change s.svc.server_addr ch o.aimed;
}

Reach-IsOrderly : {s t : System} → IsStarted s → Reach s t → IsOrderly t
Reach-IsOrderly {s} i here = record { done = λ e. rw i.no_fwdrs tt; aimed = rw i.no_fwdrs tt }
Reach-IsOrderly i (next r st) =
    Step-IsOrderly (λ b. (suspended-parked i r b).0) (Reach-AllLive i r) st (Reach-IsOrderly i r)

-- When `CloseAllForwarders` has returned, and until `Resume`, every listed forwarder's `Accept` has
-- returned.
pub drained-AllFinished :
    {s t : System} → IsStarted s → Reach s t → t.controller ≡ drained → AllFinished t.svc.fwdrs
drained-AllFinished i r c = (Reach-IsOrderly i r).done c

-- At all times, a listed forwarder that has not finished has either not called `Accept` yet, or has
-- called it with the server address that the service has now: none is left at an old address when
-- `ChangeServerAddr` has changed it.
pub Reach-AllAimed :
    {s t : System} → IsStarted s → Reach s t → AllAimed t.svc.server_addr t.svc.fwdrs
Reach-AllAimed i r = (Reach-IsOrderly i r).aimed

pub length-closes :
    (p q : ForwarderService) → close_all_forwarders p ≡ ok q → length q.fwdrs ≤ length p.fwdrs
length-closes p q h = omega (
  arith,
  length-SameShape p.fwdrs q.fwdrs
      (close_entries-shape p.fwdrs q.fwdrs (close_all-entries p q h).0),
)

-- No step from a state behind `Suspend` lists another forwarder.
suspended-no_new :
    {s t u : System}
    → IsStarted s
    → Reach s t
    → IsBehind t.controller
    → Step t u
    → length u.svc.fwdrs ≤ length t.svc.fwdrs
unfolding request_suspend resume close change_server_addr change_data_rate
suspended-no_new {t} i r b (pushes l) =
    let p : t.listener ≡ parked = (suspended-parked i r b).0 in absurd (cc)
suspended-no_new {t} i r b (closes {p} c h) = length-closes t.svc p h
suspended-no_new i r b (forwards ch) = length-Change ch
suspended-no_new {t} i r b (changes_addr {p} a c h) =
    let same : p.fwdrs ≡ t.svc.fwdrs = ground arith in rw same (omega arith)
suspended-no_new {t} i r b (changes_rate {p} a c h) =
    let same : p.fwdrs ≡ t.svc.fwdrs = ground arith in rw same (omega arith)
suspended-no_new {t} i r b (shuts {p} h) =
    let same : p.fwdrs ≡ t.svc.fwdrs = ground arith in rw same (omega arith)
suspended-no_new i r b _ = omega arith

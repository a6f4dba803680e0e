-- ===== src/FwdSvc/Lives.antt =====
-- That every listed forwarder of server/fwdsvc.go is in a state of a forwarder's life.
use container_cloudlet.Common.{
  ◌≡◌, subst, sym, ap, true, false, some, List, [], ◌∷◌, ◌++◌, ℤ, arith,
}
use container_cloudlet.Go.{ok}
use container_cloudlet.Forwarder.{Forwarder, close_upstream}
use container_cloudlet.Forwarder.Lifecycle
use container_cloudlet.Forwarder.Safety.{closed_finished}
use container_cloudlet.Forwarder.Lifecycle.{
  Phase, created, dialling, streaming, finished, Running, Event, close_called, happen, made, moved,
}
use container_cloudlet.FwdSvc.{
  ForwarderService, Entry, TcpAddr, request_suspend, resume, close, close_entry, close_entries,
  change_server_addr, change_data_rate, push_forwarder,
}
use container_cloudlet.FwdSvc.System.{
  AllFinished, AllClosed, Change, moves, removed, later, System, Step, pushes, closes, changes_addr,
  changes_rate, shuts, forwards, IsStarted, Reach, here, next,
}
use container_cloudlet.FwdSvc.Entries.{then_do-eq-ok, ok-injective, close_all-entries}

abbrev pub Lives : Entry → Type 0
Lives e = (rate : ℤ) × Lifecycle.Reach rate e.running

abbrev pub AllLive : List Entry → Type 0
AllLive [] = Unit
AllLive (e ∷ es) = Lives e × AllLive es

AllLive-Change : {a : TcpAddr} {es fs : List Entry} → Change a es fs → AllLive es → AllLive fs
AllLive-Change (moves e ev h) ((rate, l), ls) = ((rate, Lifecycle.next e.running ev l h), ls)
AllLive-Change (removed e h) (l, ls) = ls
AllLive-Change (later e c) (l, ls) = (l, AllLive-Change c ls)

AllLive-append : (es fs : List Entry) → AllLive es → AllLive fs → AllLive (es ++ fs)
AllLive-append [] fs l k = k
AllLive-append (e ∷ es) fs (l, ls) k = (l, AllLive-append es fs ls k)

close_event :
    (ph : Phase) (p q : Forwarder)
    → close_upstream p ≡ ok q
    → happen ph p close_called ≡ some (ok (record { phase = ph; fwdr = q }))
close_event created p q e = ap (λ r. some (moved created r)) e
close_event dialling p q e = ap (λ r. some (moved dialling r)) e
close_event finished p q e = ap (λ r. some (moved finished r)) e
close_event (streaming true true) p q e = ap (λ r. some (moved (streaming true true) r)) e
close_event (streaming true false) p q e = ap (λ r. some (moved (streaming true false) r)) e
close_event (streaming false true) p q e = ap (λ r. some (moved (streaming false true) r)) e
close_event (streaming false false) p q e = ap (λ r. some (moved (streaming false false) r)) e

-- Whose channel is closed has returned from `Accept`.
pub AllClosed-AllFinished : (es : List Entry) → AllLive es → AllClosed es → AllFinished es
AllClosed-AllFinished [] l h = tt
AllClosed-AllFinished (e ∷ es) ((rate, l), ls) (h, hs) =
    (closed_finished l h, AllClosed-AllFinished es ls hs)

close_entry-Lives : (e f : Entry) → close_entry e ≡ ok f → Lives e → Lives f
close_entry-Lives e f h (rate, l) =
    let (q, k, m) = then_do-eq-ok (close_upstream e.running.fwdr) _ f h in
    subst Lives (ok-injective m) (
      rate,
      Lifecycle.next e.running close_called l (close_event e.running.phase e.running.fwdr q k),
    )

close_entries-AllLive : (es fs : List Entry) → close_entries es ≡ ok fs → AllLive es → AllLive fs
close_entries-AllLive [] fs h l = subst AllLive (ok-injective h) tt
close_entries-AllLive (e ∷ es) fs h (l, ls) =
    let (e', h₁, k) = then_do-eq-ok (close_entry e) _ fs h in
    let (es', h₂, k₂) = then_do-eq-ok (close_entries es) _ fs k in
    subst AllLive (ok-injective k₂)
      (close_entry-Lives e e' h₁ l, close_entries-AllLive es es' h₂ ls)

change_addr-fwdrs :
    (p : ForwarderService) (a : TcpAddr) (q : ForwarderService)
    → change_server_addr p a ≡ ok q
    → p.fwdrs ≡ q.fwdrs
unfolding change_server_addr
change_addr-fwdrs p a q h = ground arith

change_rate-fwdrs :
    (p : ForwarderService) (rate : ℤ) (q : ForwarderService)
    → change_data_rate p rate ≡ ok q
    → p.fwdrs ≡ q.fwdrs
unfolding change_data_rate
change_rate-fwdrs p rate q h = ground arith

close-fwdrs : (p q : ForwarderService) → close p ≡ ok q → p.fwdrs ≡ q.fwdrs
unfolding close
close-fwdrs p q h = ground arith

Step-AllLive : {s t : System} → Step s t → AllLive s.svc.fwdrs → AllLive t.svc.fwdrs
unfolding request_suspend resume push_forwarder
Step-AllLive {s} (pushes l) h =
    AllLive-append s.svc.fwdrs _ h ((s.svc.data_rate, Lifecycle.here), tt)
Step-AllLive {s} (closes {p} c k) h =
    close_entries-AllLive s.svc.fwdrs p.fwdrs (close_all-entries s.svc p k).0 h
Step-AllLive {s} (changes_addr {p} a c k) h = subst AllLive (change_addr-fwdrs s.svc a p k) h
Step-AllLive {s} (changes_rate {p} r c k) h = subst AllLive (change_rate-fwdrs s.svc r p k) h
Step-AllLive {s} (shuts {p} k) h = subst AllLive (close-fwdrs s.svc p k) h
Step-AllLive (forwards ch) h = AllLive-Change ch h
Step-AllLive _ h = h

pub Reach-AllLive : {s t : System} → IsStarted s → Reach s t → AllLive t.svc.fwdrs
Reach-AllLive i here = subst AllLive (sym i.no_fwdrs) tt
Reach-AllLive i (next r st) = Step-AllLive st (Reach-AllLive i r)

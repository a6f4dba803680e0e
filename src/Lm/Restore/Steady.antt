-- ===== src/Lm/Restore/Steady.antt =====
-- `LM_Restore.exec` (server/lm.go) neither closes nor drops the forwarding service that it is given.
use container_cloudlet.Common.{◌≡◌, refl, subst, ◌∙◌, true, Option, none, some, pos, arith}
use container_cloudlet.Go.{Result, ok, fail, panic, Try, finally, ◌>>=◌}
use container_cloudlet.Go.Ensures.{
  Post, Holds, past, Ensures, Ensures-bind, Ensures-finally, Ensures-whole, Ensures-lift,
}
use container_cloudlet.FwdSvc.{
  ForwarderService, request_suspend, resume, close_all_forwarders, change_server_addr,
  change_data_rate,
}
use container_cloudlet.Lm.Messages.{Conn}
use container_cloudlet.Lm.Restore.{
  Session, RestoreEnv, Restore, on_service, service_result, on_pointer, suspend_service,
  close_forwarders, resume_service, in_world, switch_over, migrate, restore, exec,
}

-- There is a service if there was one, which is closed if that was.
abbrev pub Steady : Option ForwarderService → Option ForwarderService → Type 0
Steady none none = Unit
Steady (some q) (some q') = q'.chan_close ≡ q.chan_close
Steady none (some q) = ⊥
Steady (some q) none = ⊥

pub Steady-refl : (o : Option ForwarderService) → Steady o o
Steady-refl none = tt
Steady-refl (some q) = refl

Steady-next :
    (o : Option ForwarderService) (q q' : ForwarderService)
    → q'.chan_close ≡ q.chan_close
    → Steady o (some q)
    → Steady o (some q')
Steady-next none q q' e h = h
Steady-next (some p) q q' e h = e ∙ h

abbrev pub Steadies : {W A : Type 0} → Option ForwarderService → Post (Session W) A
Steadies o = record {
  returned = λ _ s. Steady o s.fwdsvc;
  errored = λ s. Steady o s.fwdsvc;
  panicked = λ s. Steady o s.fwdsvc;
}

module _ {W : Type 0} (o : Option ForwarderService) where
  service_result-Steady :
      (s : Session W) (q : ForwarderService) (m : Result ForwarderService)
      → Steady o (some q)
      → ((q' : ForwarderService) → m ≡ ok q' → q'.chan_close ≡ q.chan_close)
      → Steady o s.fwdsvc
      → Holds (Steadies o) (service_result s m)
  service_result-Steady s q (ok q') e h k = Steady-next o q q' (h q' refl) e
  service_result-Steady s q (fail x) e h k = k
  service_result-Steady s q (panic x) e h k = k

  on_pointer-Steady :
      (f : ForwarderService → Result ForwarderService) (s : Session W) (x : Option ForwarderService)
      → ((q q' : ForwarderService) → f q ≡ ok q' → q'.chan_close ≡ q.chan_close)
      → Steady o x
      → Steady o s.fwdsvc
      → Holds (Steadies o) (on_pointer f s x)
  on_pointer-Steady f s none h e k = k
  on_pointer-Steady f s (some q) h e k = service_result-Steady s q (f q) e (h q) k

  on_service-Steady :
      (f : Session W → ForwarderService → Result ForwarderService)
      → ((s : Session W) (q q' : ForwarderService) → f s q ≡ ok q' → q'.chan_close ≡ q.chan_close)
      → Ensures (λ s. Steady o s.fwdsvc) (λ s. on_service (f s) s) (Steadies o)
  unfolding on_service
  on_service-Steady f h = record { at = λ s k. on_pointer-Steady (f s) s s.fwdsvc (h s) k k }

  in_world-Steady :
      {A : Type 0} (m : Try W A) → Ensures (λ s. Steady o s.fwdsvc) (in_world m) (Steadies o)
  in_world-Steady m = Ensures-whole (Steadies o) _ _ m (λ s z x u. z) (λ s z u. z) (λ s z u. z)

  then-Steady :
      {A B : Type 0} {m : Try (Session W) A} {f : A → Try (Session W) B}
      → Ensures (λ s. Steady o s.fwdsvc) m (Steadies o)
      → ((a : A) → Ensures (λ s. Steady o s.fwdsvc) (f a) (Steadies o))
      → Ensures (λ s. Steady o s.fwdsvc) (m >>= f) (Steadies o)
  then-Steady h k = Ensures-bind (λ _ s. Steady o s.fwdsvc) h k

module _ {W : Type 0} (env : RestoreEnv W) (p : Restore) (o : Option ForwarderService) where
  resume-Steady : (s : Session W) → Steady o s.fwdsvc → Steady o (resume_service env p s).fwdsvc
  unfolding resume
  resume-Steady s h = by_service s.fwdsvc refl
    where
      by_service :
          (x : Option ForwarderService)
          → s.fwdsvc ≡ x
          → Steady o
              (elim x as (λ y. Session W) [
                | none ↦ s
                | some q ↦ record s { fwdsvc = some (resume q) }
              ]).fwdsvc
      by_service none e = h
      by_service (some q) e = Steady-next o q (resume q) refl (subst (Steady o) e h)

  past-Steady :
      (r : Result (Unit {0})) (s : Session W)
      → Holds (Steadies o) (r, s)
      → Holds (past (resume_service env p) (Steadies o)) (r, s)
  past-Steady (ok x) s h = resume-Steady s h
  past-Steady (fail e) s h = resume-Steady s h
  past-Steady (panic m) s h = resume-Steady s h

  resumed-Steady :
      {m : Try (Session W) (Unit {0})}
      → Ensures (λ s. Steady o s.fwdsvc) m (Steadies o)
      → Ensures (λ s. Steady o s.fwdsvc) (finally m (resume_service env p)) (Steadies o)
  resumed-Steady {m} h =
      Ensures-finally (resume_service env p)
        (record { at = λ s k. past-Steady (m s).0 (m s).1 (h.at s k) })

  suspend_service-Steady : Ensures (λ s. Steady o s.fwdsvc) (suspend_service env p) (Steadies o)
  unfolding suspend_service request_suspend
  suspend_service-Steady = on_service-Steady o _ (λ s q q' e. ground arith)

  close_forwarders-Steady : Ensures (λ s. Steady o s.fwdsvc) (close_forwarders env p) (Steadies o)
  unfolding close_forwarders close_all_forwarders
  close_forwarders-Steady = on_service-Steady o _ (λ s q q' e. ground arith)

  change_addr-Steady :
      Ensures
        (λ s. Steady o s.fwdsvc)
        (on_service (λ q. change_server_addr q p.dst_pod_addr))
        (Steadies {W = W} o)
  unfolding change_server_addr
  change_addr-Steady =
      on_service-Steady o (λ s q. change_server_addr q p.dst_pod_addr) (λ s q q' e. ground arith)

  change_rate-Steady :
      Ensures
        (λ s. Steady o s.fwdsvc)
        (on_service (λ q. change_data_rate q (pos 0)))
        (Steadies {W = W} o)
  unfolding change_data_rate
  change_rate-Steady =
      on_service-Steady o (λ s q. change_data_rate q (pos 0)) (λ s q q' e. ground arith)

  switch_over-Steady :
      (conn : Conn W) → Ensures (λ s. Steady o s.fwdsvc) (switch_over env p true conn) (Steadies o)
  unfolding switch_over
  switch_over-Steady conn = then-Steady o suspend_service-Steady λ _. resumed-Steady (
      then-Steady o close_forwarders-Steady λ _.
        then-Steady o (in_world-Steady o _)
          λ _. then-Steady o change_addr-Steady λ _. change_rate-Steady)

  migrate-Steady :
      (conn : Conn W) → Ensures (λ s. Steady o s.fwdsvc) (migrate env p true conn) (Steadies o)
  unfolding migrate
  migrate-Steady conn = Ensures-finally _ (
      then-Steady o (in_world-Steady o _)
        λ _. then-Steady o (in_world-Steady o _) λ _. switch_over-Steady conn)

  restore-Steady : Ensures (λ s. Steady o s.fwdsvc) (restore env p true) (Steadies o)
  unfolding restore
  restore-Steady = then-Steady o (in_world-Steady o _) λ _. then-Steady o (in_world-Steady o _) λ _.
      then-Steady o (in_world-Steady o _) λ resp.
        then-Steady o (Ensures-lift _ _ (λ s z x. z) (λ s z. z) (λ s z. z))
          λ _. then-Steady o (in_world-Steady o _) λ conn. Ensures-finally _ (migrate-Steady conn)

  -- Whatever fails, there is a service afterwards if there was one, closed if that was.
  pub exec-Steady : Ensures (λ s. Steady o s.fwdsvc) (exec env p true) (Steadies o)
  unfolding exec
  exec-Steady = then-Steady o (in_world-Steady o _) λ _. Ensures-finally _ restore-Steady

-- ===== src/Lm/Restore/Resumes.antt =====
-- What `LM_Restore.exec` (server/lm.go) does to the forwarding service, on every path.
use container_cloudlet.Common.{
  ◌≡◌, refl, Bool, true, false, Option, none, some, ℤ, pos, arith, String,
}
use container_cloudlet.Go.{GoError, Result, ok, fail, panic, Try}
use container_cloudlet.Go.Ensures.{
  Post, Holds, past, via, Ensures, Ensures-bind, Ensures-finally, Ensures-whole, Ensures-lift,
}
use container_cloudlet.FwdSvc.{
  ForwarderService, TcpAddr, request_suspend, resume, close_all_forwarders, change_server_addr,
  change_data_rate,
}
use container_cloudlet.Lm.Messages.{Conn}
use container_cloudlet.Lm.Restore.{
  Session, put_world, RestoreEnv, Restore, on_service, service_result, on_pointer, suspend_service,
  close_forwarders, resume_service, in_world, switch_over, migrate, restore, exec,
}

-- The service is there, suspended or not, with this address and rate.
abbrev pub At : {W : Type 0} → Bool → TcpAddr → ℤ → Session W → Type 0
At b a r s =
    (q : ForwarderService) × (s.fwdsvc ≡ some q)
    × (q.is_suspended ≡ b)
    × (q.server_addr ≡ a)
    × (q.data_rate ≡ r)

-- The service runs: with the new address and no rate limit after a return, and as before otherwise.
abbrev pub Switched : {W : Type 0} → TcpAddr → TcpAddr → ℤ → Post (Session W) (Unit {0})
Switched new a r = record {
  returned = λ _. At false new (pos 0);
  errored = At false a r;
  panicked = At false a r;
}

module _ {W : Type 0} (x : Post (Session W) (Unit {0})) where
  service_result-Holds :
      (s : Session W) (m : Result ForwarderService)
      → ((q : ForwarderService) → m ≡ ok q → x.returned tt (record s { fwdsvc = some q }))
      → ((e : GoError) → m ≡ fail e → x.errored s)
      → ((t : String) → m ≡ panic t → x.panicked s)
      → Holds x (service_result s m)
  service_result-Holds s (ok q) h k l = h q refl
  service_result-Holds s (fail e) h k l = k e refl
  service_result-Holds s (panic m) h k l = l m refl

  on_pointer-Holds :
      (f : ForwarderService → Result ForwarderService) (s : Session W) (o : Option ForwarderService)
      (q : ForwarderService)
      → o ≡ some q
      → Holds x (service_result s (f q))
      → Holds x (on_pointer f s o)
  on_pointer-Holds f s none q e h = cc
  on_pointer-Holds f s (some q') q e h = let same : q' ≡ q = ground arith in rw same h

-- A method of the service, between conditions on the service.
on_service-At :
    {W : Type 0} (x : Post (Session W) (Unit {0}))
    (f : Session W → ForwarderService → Result ForwarderService) (b : Bool) (a : TcpAddr) (r : ℤ)
    → ((s : Session W) (q q' : ForwarderService)
        → q.is_suspended ≡ b
        → q.server_addr ≡ a
        → q.data_rate ≡ r
        → f s q ≡ ok q'
        → x.returned tt (record s { fwdsvc = some q' }))
    → ((s : Session W) (q : ForwarderService) (e : GoError)
        → At b a r s
        → q.is_suspended ≡ b
        → f s q ≡ fail e
        → x.errored s)
    → ((s : Session W) (q : ForwarderService) (t : String)
        → At b a r s
        → q.is_suspended ≡ b
        → f s q ≡ panic t
        → x.panicked s)
    → Ensures (At b a r) (λ s. on_service (f s) s) x
unfolding on_service
on_service-At x f b a r h k l = record {
  at = λ s (q, e, eb, ea, er).
      let z : At b a r s = (q, e, eb, ea, er) in
      on_pointer-Holds x (f s) s s.fwdsvc q e (
        service_result-Holds x s (f s q) (λ q' m. h s q q' eb ea er m) (λ y m. k s q y z eb m)
          (λ t m. l s q t z eb m));
}

module _ {W : Type 0} (env : RestoreEnv W) (p : Restore) (a : TcpAddr) (r : ℤ) where
  suspend_service-At :
      Ensures
        (At false a r)
        (suspend_service env p)
        (via (λ _. At true a r) (Switched p.dst_pod_addr a r))
  unfolding suspend_service request_suspend
  suspend_service-At =
      on_service-At _ _ false a r
        (λ s q q' eb ea er m. (q', refl, ground arith, ground arith, ground arith))
        (λ s q e z eb m. z) (λ s q t z eb m. z)

  -- Between `Suspend` and `Resume`.
  abbrev Inside : Post (Session W) (Unit {0})
  Inside = past (resume_service env p) (Switched p.dst_pod_addr a r)

  resume-At :
      (b : Bool) (a' : TcpAddr) (r' : ℤ) (s : Session W)
      → At b a' r' s
      → At false a' r' (resume_service env p s)
  unfolding resume
  resume-At b a' r' s (q, e, eb, ea, er) =
      (resume q, ground arith, ground arith, ground arith, ground arith)

  close_forwarders-At :
      Ensures (At true a r) (close_forwarders env p) (via (λ _. At true a r) Inside)
  unfolding close_forwarders close_all_forwarders
  close_forwarders-At =
      on_service-At _ _ true a r
        (λ s q q' eb ea er m. (q', refl, ground arith, ground arith, ground arith))
        (λ s q e z eb m. resume-At true a r s z) (λ s q t z eb m. resume-At true a r s z)

  change_addr-At :
      Ensures
        (At true a r)
        (on_service (λ q. change_server_addr q p.dst_pod_addr))
        (via (λ _. At true p.dst_pod_addr r) Inside)
  unfolding change_server_addr
  change_addr-At =
      on_service-At _ _ true a r
        (λ s q q' eb ea er m. (q', refl, ground arith, ground arith, ground arith))
        (λ s q e z eb m. resume-At true a r s z) (λ s q t z eb m. resume-At true a r s z)

  -- The rate is set while the address is the new one already.
  change_rate-At :
      Ensures (At true p.dst_pod_addr r) (on_service (λ q. change_data_rate q (pos 0))) Inside
  unfolding change_data_rate
  change_rate-At =
      on_service-At _ _ true p.dst_pod_addr r
        (λ s q q' eb ea er m.
          resume-At true p.dst_pod_addr (pos 0) (record s { fwdsvc = some q' })
            (q', refl, ground arith, ground arith, ground arith))
        (λ s q e z eb m. absurd (ground arith)) (λ s q t z eb m. absurd (ground arith))

  -- Code on the world leaves the service alone, before `Suspend` and behind it.
  outside-At :
      {A : Type 0} (m : Try W A)
      → Ensures (At false a r) (in_world m) (via (λ _. At false a r) (Switched p.dst_pod_addr a r))
  outside-At m = Ensures-whole _ _ _ m (λ s z x u. z) (λ s z u. z) (λ s z u. z)

  inside-At :
      {A : Type 0} (m : Try W A)
      → Ensures (At true a r) (in_world m) (via (λ _. At true a r) Inside)
  inside-At m =
      Ensures-whole _ _ _ m (λ s z x u. z) (λ s z u. resume-At true a r (put_world s u) z)
        (λ s z u. resume-At true a r (put_world s u) z)

  switch_over-Switched :
      (conn : Conn W)
      → Ensures (At false a r) (switch_over env p true conn) (Switched p.dst_pod_addr a r)
  unfolding switch_over
  switch_over-Switched conn =
      Ensures-bind (λ _. At true a r) suspend_service-At
        λ _. Ensures-finally _ (
          Ensures-bind (λ _. At true a r) close_forwarders-At
            λ _.
              Ensures-bind (λ _. At true a r) (inside-At _)
                λ _.
                  Ensures-bind (λ _. At true p.dst_pod_addr r) change_addr-At λ _. change_rate-At)

  migrate-Switched :
      (conn : Conn W)
      → Ensures (At false a r) (migrate env p true conn) (Switched p.dst_pod_addr a r)
  unfolding migrate
  migrate-Switched conn = Ensures-finally _ (
      Ensures-bind (λ _. At false a r) (outside-At _)
        λ _. Ensures-bind (λ _. At false a r) (outside-At _) λ _. switch_over-Switched conn)

  restore-Switched : Ensures (At false a r) (restore env p true) (Switched p.dst_pod_addr a r)
  unfolding restore
  restore-Switched =
      Ensures-bind (λ _. At false a r) (outside-At _)
        λ _.
          Ensures-bind (λ _. At false a r) (outside-At _)
            λ _.
              Ensures-bind (λ _. At false a r) (outside-At _)
                λ resp.
                  Ensures-bind (λ _. At false a r)
                    (Ensures-lift _ _ (λ s z x. z) (λ s z. z) (λ s z. z))
                    λ _.
                      Ensures-bind (λ _. At false a r) (outside-At _)
                        λ conn. Ensures-finally _ (migrate-Switched conn)

  exec-Ensures : Ensures (At false a r) (exec env p true) (Switched p.dst_pod_addr a r)
  unfolding exec
  exec-Ensures =
      Ensures-bind (λ _. At false a r) (outside-At _) λ _. Ensures-finally _ restore-Switched

  -- A migration with forwarding, from a session whose service runs with address `a` and rate `r`,
  -- leaves the service running, whatever fails on the way and however it ends. When it succeeds, the
  -- service forwards to the restored pod, without a rate limit; when it fails or panics, the address
  -- and the rate are those from before.
  pub exec-Switched :
      (s : Session W) → At false a r s → Holds (Switched p.dst_pod_addr a r) (exec env p true s)
  exec-Switched s h = exec-Ensures.at s h

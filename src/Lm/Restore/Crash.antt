-- ===== src/Lm/Restore/Crash.antt =====
-- What `LM_Restore.exec` (server/lm.go) with forwarding does where there is no forwarding service.
use container_cloudlet.Common.{◌≡◌, refl, true, Option, none, some}
use container_cloudlet.Go.{Result, panic, Try, ◌>>=◌}
use container_cloudlet.Go.Ensures.{
  Post, Holds, Ensures, Ensures-bind, Ensures-finally, Ensures-whole, Ensures-lift,
}
use container_cloudlet.FwdSvc.{ForwarderService}
use container_cloudlet.Lm.Messages.{Conn}
use container_cloudlet.Lm.Restore.{
  Session, RestoreEnv, Restore, on_service, on_pointer, suspend_service, in_world, switch_over,
  migrate, restore, exec,
}

abbrev pub NoService : {W : Type 0} → Session W → Type 0
NoService s = s.fwdsvc ≡ none

-- There is no return without an error, and there is no service afterwards.
abbrev pub Crashes : {W A : Type 0} → Post (Session W) A
Crashes = record { returned = λ _ _. ⊥; errored = NoService; panicked = NoService }

-- On the way there.
abbrev Goes : {W A : Type 0} → Post (Session W) A
Goes = record { returned = λ _. NoService; errored = NoService; panicked = NoService }

module _ {W : Type 0} (env : RestoreEnv W) (p : Restore) where
  on_pointer-Crashes :
      (f : ForwarderService → Result ForwarderService) (s : Session W) (o : Option ForwarderService)
      → o ≡ none
      → NoService s
      → Holds Crashes (on_pointer f s o)
  on_pointer-Crashes f s none e h = h
  on_pointer-Crashes f s (some q) e h = cc

  in_world-Goes : {A : Type 0} (m : Try W A) → Ensures NoService (in_world m) Goes
  in_world-Goes m = Ensures-whole Goes _ _ m (λ s z x u. z) (λ s z u. z) (λ s z u. z)

  then-Crashes :
      {A B : Type 0} {m : Try (Session W) A} {f : A → Try (Session W) B}
      → Ensures NoService m Goes
      → ((a : A) → Ensures NoService (f a) Crashes)
      → Ensures NoService (m >>= f) Crashes
  then-Crashes h k = Ensures-bind (λ _. NoService) h k

  on_service-Crashes :
      (f : Session W → ForwarderService → Result ForwarderService)
      → Ensures NoService (λ s. on_service (f s) s) Crashes
  unfolding on_service
  on_service-Crashes f = record { at = λ s h. on_pointer-Crashes (f s) s s.fwdsvc h h }

  suspend_service-Crashes : Ensures NoService (suspend_service env p) Crashes
  unfolding suspend_service
  suspend_service-Crashes = on_service-Crashes _

  switch_over-Crashes : (conn : Conn W) → Ensures NoService (switch_over env p true conn) Crashes
  unfolding switch_over
  switch_over-Crashes conn =
      Ensures-bind (λ _ _. ⊥) suspend_service-Crashes λ _. record { at = λ s h. absurd h }

  migrate-Crashes : (conn : Conn W) → Ensures NoService (migrate env p true conn) Crashes
  unfolding migrate
  migrate-Crashes conn = Ensures-finally _ (
      then-Crashes (in_world-Goes _)
        λ _. then-Crashes (in_world-Goes _) λ _. switch_over-Crashes conn)

  restore-Crashes : Ensures NoService (restore env p true) Crashes
  unfolding restore
  restore-Crashes = then-Crashes (in_world-Goes _) λ _. then-Crashes (in_world-Goes _) λ _.
      then-Crashes (in_world-Goes _) λ resp.
        then-Crashes (Ensures-lift _ _ (λ s z x. z) (λ s z. z) (λ s z. z))
          λ _. then-Crashes (in_world-Goes _) λ conn. Ensures-finally _ (migrate-Crashes conn)

  exec-Ensures : Ensures NoService (exec env p true) Crashes
  unfolding exec
  exec-Ensures = then-Crashes (in_world-Goes _) λ _. Ensures-finally _ restore-Crashes

  -- A migration with forwarding where there is no forwarding service, since it could not be started or was
  -- removed before: it never ends in a success, and there is no service afterwards.
  pub exec-Crashes : (s : Session W) → NoService s → Holds Crashes (exec env p true s)
  exec-Crashes s h = exec-Ensures.at s h

  -- When its pre-dumps have succeeded, it panics with a nil dereference.
  switch_over-nil :
      (conn : Conn W) (s : Session W)
      → NoService s
      → (switch_over env p true conn s).0 ≡ panic "nil pointer dereference"
  unfolding switch_over suspend_service on_service ◌>>=◌
  switch_over-nil conn s e = rw e refl

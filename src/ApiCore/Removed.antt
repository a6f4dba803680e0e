-- ===== src/ApiCore/Removed.antt =====
-- The goroutine of `DeployFwdLM` (server/api-core.go) where no forwarding service is kept for its name.
use container_cloudlet.Common.{
  ◌≡◌, refl, true, false, Bool, String, arith, lookup-insert, string_eq, str_iff, inl, inr,
}
use container_cloudlet.Go.{Result, ok, fail, panic, zoom, failed}
use container_cloudlet.Go.Ensures.{Holds, on_part, zoom-Holds}
use container_cloudlet.Kube.{new_client}
use container_cloudlet.Types.{Deploy}
use container_cloudlet.Lm.Restore.{Session, Restore, exec}
use container_cloudlet.Lm.Restore.Crash.{NoService, Crashes, exec-Crashes}
use container_cloudlet.ApiCore.{ApiCore, ApiEnv, fwdsvc_of, set_fwdsvc}
use container_cloudlet.ApiCore.Handlers.{
  with_service, put_service, migrate_fwd, migrate_fwd_if_new, fwd_restore,
}
use container_cloudlet.ApiCore.Entries.{
  Entries, Kept, Keeps, in_world-Keeps, logged-Keeps, then-Keeps, new_client-Returns, call-Returns,
  answer-Returns, create_new_pod-Keeps, create_or_get_cluster_ip-Keeps,
}
use container_cloudlet.ApiCore.Frame.{say-Keeps}
use container_cloudlet.ApiCore.Cleared.{Cleared}

module _ {W Signer : Type 0} (env : ApiEnv W Signer) (d : Deploy) (w : W) where
  abbrev R : Entries → Type 0
  R = Cleared env d.name w

  abbrev X : ApiCore W → Type 0
  X s = R s.resmap

  put-Cleared : (s : ApiCore W) (t : Session W) → NoService t → R (put_service d.name s t).resmap
  unfolding set_fwdsvc
  put-Cleared s t e =
      let k = lookup-insert d.name d.name (record { fwdsvc = t.fwdsvc }) s.resmap in
      inl (ground (arith, str_iff d.name d.name))

  crashed-Cleared :
      (s : ApiCore W) (x : Result (Unit {0})) (t : Session W)
      → Holds Crashes (x, t)
      → Holds (on_part (put_service d.name s) (Kept R X)) (x, t)
  crashed-Cleared s (ok y) t h = absurd h
  crashed-Cleared s (fail y) t h = put-Cleared s t h
  crashed-Cleared s (panic y) t h = put-Cleared s t h

  no_client-Cleared :
      (s : ApiCore W) (x : Result (Unit {0})) (t : Session W)
      → failed (new_client env.cluster w).0 ≡ true
      → Holds (on_part (put_service d.name s) (Kept R X)) (x, t)
  no_client-Cleared s (ok y) t e = inr e
  no_client-Cleared s (fail y) t e = inr e
  no_client-Cleared s (panic y) t e = inr e

  with_service-Cleared :
      (p : Restore) (s : ApiCore W)
      → R s.resmap
      → Holds (Kept R X) (with_service d.name (exec env.restore p true) s)
  unfolding zoom
  with_service-Cleared p s h =
      let start : Session W = record { world = s.world; fwdsvc = fwdsvc_of d.name s } in
      let run = exec env.restore p true start in
      zoom-Holds (Kept R X) (put_service d.name s) run.0 run.1 (elim h [
        | inl e ↦ crashed-Cleared s run.0 run.1 (exec-Crashes env.restore p start e)
        | inr e ↦ no_client-Cleared s run.0 run.1 e
      ])

  migrate_if_new-Cleared : (b : Bool) (ip : String) → Keeps R X (migrate_fwd_if_new env b d ip)
  migrate_if_new-Cleared true ip = then-Keeps R X (in_world-Keeps R X (call-Returns _)) λ _.
      then-Keeps R X (in_world-Keeps R X (answer-Returns _))
        λ addr. record { at = λ s h. with_service-Cleared (fwd_restore env d addr s) s h }
  migrate_if_new-Cleared false ip = say-Keeps env R X _ λ s. refl

  -- Where no service is kept for the name, as after `Remove`, there is none at the end of the goroutine
  -- either, however it ends.
  pub migrate_fwd-Cleared : Keeps R X (migrate_fwd env d)
  unfolding migrate_fwd
  migrate_fwd-Cleared = logged-Keeps R X (
      then-Keeps R X (in_world-Keeps R X (new_client-Returns env R X)) λ _.
        then-Keeps R X (create_new_pod-Keeps env R X _ _ _ _ _ _ _ _) λ b.
          then-Keeps R X (create_or_get_cluster_ip-Keeps env R X _ _ _ _)
            λ ip. migrate_if_new-Cleared b ip)

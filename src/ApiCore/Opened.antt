-- ===== src/ApiCore/Opened.antt =====
-- The forwarding services that server/api-core.go keeps are not closed: what new entries and the goroutine
-- of `DeployFwdLM` do to that.
use container_cloudlet.Common.{
  String, ◌≡◌, ◌∙◌, refl, Bool, true, false, Option, none, some, arith, lookup, insert,
  lookup-insert, string_eq, str_iff,
}
use container_cloudlet.Go.{Result, ok, fail, panic, zoom}
use container_cloudlet.Go.Ensures.{Holds, on_part, zoom-Holds}
use container_cloudlet.FwdSvc.{ForwarderService}
use container_cloudlet.Types.{Deploy}
use container_cloudlet.Lm.Restore.{Session, Restore, exec}
use container_cloudlet.Lm.Restore.Steady.{Steady, Steady-refl, Steadies, exec-Steady}
use container_cloudlet.ApiCore.{ApiCore, ApiEnv, stored, fwdsvc_of, set_fwdsvc}
use container_cloudlet.ApiCore.Handlers.{
  with_service, put_service, migrate_fwd, migrate_fwd_if_new, fwd_restore,
}
use container_cloudlet.ApiCore.Entries.{
  Entries, Kept, Keeps, in_world-Keeps, logged-Keeps, then-Keeps, new_client-Returns, call-Returns,
  answer-Returns, create_new_pod-Keeps, create_or_get_cluster_ip-Keeps,
}
use container_cloudlet.ApiCore.Frame.{say-Keeps}

-- No kept service is closed.
abbrev pub AllOpen : Entries → Type 0
AllOpen m =
    (j : String) (q : ForwarderService) → stored (lookup j m) ≡ some q → q.chan_close ≡ false

pub AllOpen-none :
    (name : String) (m : Entries) → AllOpen m → AllOpen (insert name (record { fwdsvc = none }) m)
AllOpen-none name m h j q e =
    let a = lookup-insert name j (record { fwdsvc = none }) m in
    let b = h j q in ground (arith, str_iff name j)

pub AllOpen-some :
    (name : String) (m : Entries) (q : ForwarderService)
    → q.chan_close ≡ false
    → AllOpen m
    → AllOpen (insert name (record { fwdsvc = some q }) m)
AllOpen-some name m q o h j p e =
    let a = lookup-insert name j (record { fwdsvc = some q }) m in
    let b = h j p in ground (arith, str_iff name j)

module _ {W Signer : Type 0} (env : ApiEnv W Signer) (R : Entries → Type 0)
    (none_kept : (name : String) (m : Entries)
      → stored (lookup name m) ≡ none
      → R m
      → R (insert name (record { fwdsvc = none }) m))
    (changed : (name : String) (m : Entries) (q q' : ForwarderService)
      → stored (lookup name m) ≡ some q
      → q'.chan_close ≡ q.chan_close
      → R m
      → R (insert name (record { fwdsvc = some q' }) m)) where
  abbrev X : ApiCore W → Type 0
  X s = R s.resmap

  insert-Steady :
      (name : String) (m : Entries) (o p : Option ForwarderService)
      → stored (lookup name m) ≡ o
      → Steady o p
      → R m
      → R (insert name (record { fwdsvc = p }) m)
  insert-Steady name m none none e k h = none_kept name m e h
  insert-Steady name m none (some q) e k h = absurd k
  insert-Steady name m (some q) none e k h = absurd k
  insert-Steady name m (some q) (some q') e k h = changed name m q q' e k h

  put-Kept :
      (name : String) (s : ApiCore W) (r : Result (Unit {0})) (t : Session W)
      → R s.resmap
      → Holds (Steadies (fwdsvc_of name s)) (r, t)
      → Holds (on_part (put_service name s) (Kept R X)) (r, t)
  unfolding set_fwdsvc
  put-Kept name s (ok x) t h k = insert-Steady name s.resmap (fwdsvc_of name s) t.fwdsvc refl k h
  put-Kept name s (fail e) t h k = insert-Steady name s.resmap (fwdsvc_of name s) t.fwdsvc refl k h
  put-Kept name s (panic m) t h k = insert-Steady name s.resmap (fwdsvc_of name s) t.fwdsvc refl k h

  with_service-Keeps :
      (name : String) (p : Restore) (s : ApiCore W)
      → R s.resmap
      → Holds (Kept R X) (with_service name (exec env.restore p true) s)
  unfolding zoom
  with_service-Keeps name p s h =
      let o = fwdsvc_of name s in
      let start : Session W = record { world = s.world; fwdsvc = o } in
      let run = exec env.restore p true start in
      zoom-Holds (Kept R X) (put_service name s) run.0 run.1
        (put-Kept name s run.0 run.1 h ((exec-Steady env.restore p o).at start (Steady-refl o)))

  migrate_if_new-Keeps :
      (b : Bool) (d : Deploy) (ip : String) → Keeps R X (migrate_fwd_if_new env b d ip)
  migrate_if_new-Keeps true d ip = then-Keeps R X (in_world-Keeps R X (call-Returns _)) λ _.
      then-Keeps R X (in_world-Keeps R X (answer-Returns _))
        λ addr. record { at = λ s h. with_service-Keeps d.name (fwd_restore env d addr s) s h }
  migrate_if_new-Keeps false d ip = say-Keeps env R X _ λ s. refl

  -- The goroutine of `DeployFwdLM` neither closes nor drops a service, whether or not one is kept for its
  -- name.
  migrate_fwd-Keeps : (d : Deploy) → Keeps R X (migrate_fwd env d)
  unfolding migrate_fwd
  migrate_fwd-Keeps d = logged-Keeps R X (
      then-Keeps R X (in_world-Keeps R X (new_client-Returns env R X)) λ _.
        then-Keeps R X (create_new_pod-Keeps env R X _ _ _ _ _ _ _ _) λ b.
          then-Keeps R X (create_or_get_cluster_ip-Keeps env R X _ _ _ _)
            λ ip. migrate_if_new-Keeps b d ip)

pub migrate_fwd-AllOpen :
    {W Signer : Type 0} (env : ApiEnv W Signer) (d : Deploy)
    → Keeps AllOpen (λ s. AllOpen s.resmap) (migrate_fwd env d)
migrate_fwd-AllOpen env d =
    migrate_fwd-Keeps env AllOpen (λ name m e h. AllOpen-none name m h)
      (λ name m q q' e c h. AllOpen-some name m q' (c ∙ h name q e) h) d

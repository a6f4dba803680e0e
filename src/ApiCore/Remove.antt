-- ===== src/ApiCore/Remove.antt =====
-- `Remove` of server/api-core.go.
use Prim.Native.String.{◌++◌}
use container_cloudlet.Common.{
  String, Bool, true, false, Option, none, some, if◌then◌else◌, string_eq,
}
use container_cloudlet.Go.{GoError, Result, ok, fail, panic, Try, return, modify, call, ◌>>=◌, ◌>>◌}
use container_cloudlet.Logger.{error, warn, info}
use container_cloudlet.Kube.{
  new_client, wait_for_pod_deleted, delete_pod as kube_delete_pod,
  delete_service as kube_delete_service,
}
use container_cloudlet.FwdSvc.{ForwarderService, close}
use container_cloudlet.ApiCore.{
  ApiCore, ApiEnv, wait_pod_timeout, put_world, in_world, say, logged, fwdsvc_of, set_fwdsvc,
  load_or_store,
}

module _ {W : Type 0} where
  -- What a failed or a successful deletion logs; the Boolean is whether it succeeded.
  abbrev deletion : String → String → ApiCore W → Option GoError × W → Bool × ApiCore W
  deletion missing deleting s (none, w) = (true, say info deleting (put_world s w))
  deletion missing deleting s (some e, w) = (
    false,
    if e.not_found then say info missing (put_world s w) else say error e.text (put_world s w),
  )

module _ {W Signer : Type 0} (env : ApiEnv W Signer) where
  abbrev closed : String → ApiCore W → Result ForwarderService → Result (Unit {0}) × ApiCore W
  closed name s (ok q) = (ok tt, set_fwdsvc name none s)
  closed name s (fail e) = (ok tt, set_fwdsvc name none (say warn e.text s))
  closed name s (panic m) = (panic m, s)

  abbrev pub close_stored : String → Option ForwarderService → Try (ApiCore W) (Unit {0})
  close_stored name none s = (ok tt, s)
  close_stored name (some q) s = closed name s (close q)

  abbrev pub wait_if_deleted : Bool → String → Try (ApiCore W) (Unit {0})
  wait_if_deleted true pod_name =
      logged (in_world (call (wait_for_pod_deleted env.cluster pod_name wait_pod_timeout)))
  wait_if_deleted false pod_name = return tt

  unfoldable pub delete_service : String → Try (ApiCore W) Bool
  unfolding kube_delete_service
  delete_service service_name s =
      let (b, s') =
        deletion "No services to delete" ("Deleting service: " ++ service_name) s
          (kube_delete_service env.cluster service_name s.world) in
      (ok b, s')

  unfoldable pub delete_pod : String → Try (ApiCore W) Bool
  unfolding kube_delete_pod
  delete_pod pod_name s =
      let (b, s') =
        deletion "No pods to delete" ("Deleting pod: " ++ pod_name) s
          (kube_delete_pod env.cluster pod_name s.world) in
      (ok b, s')

  -- `Remove`
  unfoldable pub remove : String → Try (ApiCore W) (Unit {0})
  unfolding load_or_store delete_service delete_pod
  remove name = logged (do
    modify (load_or_store name)
    in_world (new_client env.cluster)
    (λ s. close_stored name (fwdsvc_of name s) s)
    delete_service (name ++ "-svc")
    deleted ← delete_pod (name ++ "-pod")
    wait_if_deleted deleted (name ++ "-pod"))

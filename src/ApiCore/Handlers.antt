-- ===== src/ApiCore/Handlers.antt =====
-- The handlers of `APICore` (server/api-core.go): deployments. The others are in
-- ApiCore.DumpStart and ApiCore.Remove.
-- Between taking the entry's mutex and its release nothing else touches the entry, so a handler is a
-- function of the state; the goroutine of `DeployFwdLM` is `migrate_fwd`, run apart from the handlers.
use Prim.Native.String.{◌++◌}
use container_cloudlet.Common.{
  ℕ, String, Bool, true, false, not, none, [], pos, show_nat, show_int, to_int32, if◌then◌else◌,
  ◌==◌, string_eq,
}
use container_cloudlet.Go.{Try, return, modify, answer, call, zoom, ◌>>=◌, ◌>>◌}
use container_cloudlet.Logger.{error, warn}
use container_cloudlet.Kube.{new_client, wait_for_pod_ready}
use container_cloudlet.KubeExec.{Container}
use container_cloudlet.FwdSvc.{TcpAddr}
use container_cloudlet.Types.{
  Deploy, deploy_type_new, deploy_type_fwd, deploy_type_lm, deploy_type_fwd_lm,
}
use container_cloudlet.Lm.{get_restore_pod_command}
use container_cloudlet.Lm.Restore.{Restore, Session, exec_lm, exec_fwd_lm}
use container_cloudlet.ApiCore.{
  ApiCore, ApiEnv, wait_pod_timeout, to_pod_name, to_container_name, to_service_name,
  to_cluster_ip_name, put_world, in_world, say, logged, fwdsvc_of, set_fwdsvc, load_or_store,
  create_new_pod, create_or_get_cluster_ip, ensure_forwarding, forward_to_pod,
}

-- `APIServerPort`
abbrev api_server_port : ℕ
api_server_port = 9999

abbrev no_addr : TcpAddr
no_addr = record { ip = ""; port = 0 }

-- The container of an application's pod.
abbrev pub target_of : String → Container
target_of name = record {
  namespace = "default";
  pod_name = to_pod_name name;
  container_name = to_container_name name;
}

module _ {W : Type 0} where
  -- A migration of a pod without a forwarding service, and with the one kept for `name`.
  abbrev pub without_service : Try (Session W) (Unit {0}) → Try (ApiCore W) (Unit {0})
  without_service =
      zoom (λ s. record { world = s.world; fwdsvc = none }) (λ s t. put_world s t.world)

  abbrev pub put_service : String → ApiCore W → Session W → ApiCore W
  put_service name s t = set_fwdsvc name t.fwdsvc (put_world s t.world)

  abbrev pub with_service : String → Try (Session W) (Unit {0}) → Try (ApiCore W) (Unit {0})
  with_service name =
      zoom (λ s. record { world = s.world; fwdsvc = fwdsvc_of name s }) (put_service name)

  abbrev this_addr : String → ApiCore W → String
  this_addr dst_addr s = if not (dst_addr == "") then dst_addr else s.host_addr

module _ {W Signer : Type 0} (env : ApiEnv W Signer) where
  abbrev pub wait_if_new : Bool → String → Try (ApiCore W) (Unit {0})
  wait_if_new true pod_name =
      logged (in_world (call (wait_for_pod_ready env.cluster pod_name wait_pod_timeout)))
  wait_if_new false pod_name = return tt

  -- `DeployNew`
  unfoldable pub deploy_new : Deploy → Try (ApiCore W) (Unit {0})
  unfolding load_or_store to_pod_name to_container_name to_service_name to_cluster_ip_name
  deploy_new d =
      let name = d.name in
      let port_in = to_int32 d.new_app.port.in_port in
      let port_ext = to_int32 d.new_app.port.ext_port in
      logged (do
        modify (load_or_store name)
        in_world (new_client env.cluster)
        new_pod ←
            create_new_pod env name (to_pod_name name) (to_container_name name) d.new_app.image
              port_in d.new_app.env [] []
        cluster_ip ←
            create_or_get_cluster_ip env name (to_service_name name) (to_cluster_ip_name name)
              port_in
        forward_to_pod env name port_ext cluster_ip port_in
        wait_if_new new_pod (to_pod_name name))

  -- `DeployFwd`
  unfoldable pub deploy_fwd : Deploy → Try (ApiCore W) (Unit {0})
  unfolding load_or_store
  deploy_fwd d = do
    modify (load_or_store d.name)
    ensure_forwarding env d.name (to_int32 d.fwd.port.ext_port) d.fwd.src_addr
        (to_int32 d.fwd.port.in_port) true (pos 0)

  abbrev lm_restore : Deploy → ApiCore W → Restore
  lm_restore d s = record {
    config_host = env.config_host;
    this_addr = this_addr d.lm.dst_addr s;
    target = target_of d.name;
    src_addr = d.lm.src_addr;
    src_api_server_addr = d.lm.src_addr ++ ":" ++ show_nat api_server_port;
    src_name = d.lm.src_name;
    dst_pod_addr = no_addr;
    bw_limit = d.lm.bw_limit;
    iteration = d.lm.iteration;
  }

  abbrev pub migrate_if_new : Bool → Deploy → Try (ApiCore W) (Unit {0})
  migrate_if_new true d = logged (do
    in_world (call (wait_for_pod_ready env.cluster (to_pod_name d.name) wait_pod_timeout))
    (λ s. without_service (exec_lm env.restore (lm_restore d s)) s))
  migrate_if_new false d =
      modify (say warn "Live migration was not performed because creating pod failed")

  -- `DeployLM`
  unfoldable pub deploy_lm : Deploy → Try (ApiCore W) (Unit {0})
  unfolding load_or_store to_pod_name to_container_name to_service_name to_cluster_ip_name
  deploy_lm d =
      let name = d.name in
      let port_in = to_int32 d.lm.port.in_port in
      let port_ext = to_int32 d.lm.port.ext_port in
      let restore_command = get_restore_pod_command in
      logged (do
        modify (load_or_store name)
        in_world (new_client env.cluster)
        new_pod ←
            create_new_pod env name (to_pod_name name) (to_container_name name) d.lm.image port_in
              d.lm.env restore_command.0 restore_command.1
        cluster_ip ←
            create_or_get_cluster_ip env name (to_service_name name) (to_cluster_ip_name name)
              port_in
        forward_to_pod env name port_ext cluster_ip port_in
        migrate_if_new new_pod d)

  -- `DeployFwdLM` up to its goroutine
  unfoldable pub deploy_fwd_lm : Deploy → Try (ApiCore W) (Unit {0})
  unfolding load_or_store
  deploy_fwd_lm d = do
    modify (load_or_store d.name)
    ensure_forwarding env d.name (to_int32 d.fwd_lm.port.ext_port) d.fwd_lm.src_addr
        (to_int32 d.fwd_lm.src_port) true d.fwd_lm.data_rate

  abbrev pub fwd_restore : Deploy → TcpAddr → ApiCore W → Restore
  fwd_restore d dst_pod_addr s = record {
    config_host = env.config_host;
    this_addr = this_addr d.fwd_lm.dst_addr s;
    target = target_of d.name;
    src_addr = d.fwd_lm.src_addr;
    src_api_server_addr = d.fwd_lm.src_addr ++ ":" ++ show_nat api_server_port;
    src_name = d.fwd_lm.src_name;
    dst_pod_addr = dst_pod_addr;
    bw_limit = d.fwd_lm.bw_limit;
    iteration = d.fwd_lm.iteration;
  }

  abbrev pub migrate_fwd_if_new : Bool → Deploy → String → Try (ApiCore W) (Unit {0})
  migrate_fwd_if_new true d cluster_ip = do
    in_world (call (wait_for_pod_ready env.cluster (to_pod_name d.name) wait_pod_timeout))
    addr ← in_world (
        answer
          (env.resolve_tcp_addr (cluster_ip ++ ":" ++ show_int (to_int32 d.fwd_lm.port.in_port))))
    (λ s. with_service d.name (exec_fwd_lm env.restore (fwd_restore d addr s)) s)
  migrate_fwd_if_new false d cluster_ip =
      modify (say warn "Live migration was not performed because creating pod failed")

  -- The goroutine of `DeployFwdLM`
  unfoldable pub migrate_fwd : Deploy → Try (ApiCore W) (Unit {0})
  unfolding to_pod_name to_container_name to_service_name to_cluster_ip_name
  migrate_fwd d =
      let name = d.name in
      let port_in = to_int32 d.fwd_lm.port.in_port in
      let restore_command = get_restore_pod_command in
      logged (do
        in_world (new_client env.cluster)
        new_pod ←
            create_new_pod env name (to_pod_name name) (to_container_name name) d.fwd_lm.image
              port_in d.fwd_lm.env restore_command.0 restore_command.1
        cluster_ip ←
            create_or_get_cluster_ip env name (to_service_name name) (to_cluster_ip_name name)
              port_in
        migrate_fwd_if_new new_pod d cluster_ip)

  -- `Deploy`
  unfoldable pub deploy : Deploy → Try (ApiCore W) (Unit {0})
  deploy d =
      if d.deploy_type == deploy_type_new
      then deploy_new d
      else if d.deploy_type == deploy_type_fwd
      then deploy_fwd d
      else if d.deploy_type == deploy_type_lm
      then deploy_lm d
      else if d.deploy_type == deploy_type_fwd_lm
      then deploy_fwd_lm d
      else modify (say error ("Unsupported deploy type: " ++ d.deploy_type))

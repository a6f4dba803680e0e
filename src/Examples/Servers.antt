-- ===== src/Examples/Servers.antt =====
-- Runs of the API server (server/api-core.go, server/api-server.go) and of server/ifaceaddr.go.
use container_cloudlet.Common.{
  String, ◌≡◌, refl, false, none, some, pos, inl, lookup, insert, string_eq,
}
use container_cloudlet.Go.{Result, ok, ◌>>=◌}
use container_cloudlet.Go.Ensures.{Holds}
use container_cloudlet.Types.{Response}
use container_cloudlet.FwdSvc.{ForwarderService, start_forwarder_service_dr}
use container_cloudlet.Lm.Restore.{dump_start_request}
use container_cloudlet.ApiCore.{
  ApiCore, new_api_core, set_fwdsvc, create_or_get_cluster_ip, load_or_store, logged,
  create_new_pod, ensure_forwarding, forward_to_pod, start_forwarding, get_forward_addrs,
  to_pod_name, to_service_name, to_cluster_ip_name, to_container_name,
}
use container_cloudlet.ApiCore.Handlers.{migrate_fwd, deploy_fwd_lm, deploy, deploy_new}
use container_cloudlet.ApiCore.Remove.{remove}
use container_cloudlet.ApiCore.Entries.{Kept}
use container_cloudlet.ApiCore.Cleared.{Cleared}
use container_cloudlet.ApiCore.Services.{Entry, deploy-others}
use container_cloudlet.ApiCore.Forwards.{Forwards, migrate_fwd-Forwards}
use container_cloudlet.ApiCore.Deployed.{EndsForwarding, deploy_fwd_lm-EndsForwarding}
use container_cloudlet.Types.{Deploy}
use container_cloudlet.ApiCore.Dumps.{Answered}
use container_cloudlet.ApiCore.Address.{cluster_ip-stable}
use container_cloudlet.Kube.{new_client, create_pod, create_service, wait_for_pod_ready}
use container_cloudlet.ApiServer.{ServerEnv, dispatch, handle_connection}
use container_cloudlet.ApiServer.Connections.{
  Served, fresh, connected, served-open, removed-Cleared,
}
use container_cloudlet.ApiServer.Dispatch.{dump_start_request-Answered}
use container_cloudlet.IfaceAddr.{get_interface_addr}
use container_cloudlet.IfaceAddr.Found.{Outcome, get_interface_addr-Outcome}
use container_cloudlet.Examples.Worlds.{
  json, conn, interfaces, World, api_env, server_env, core, deploy_app, restore, local_addr,
  host_conf, keeps_services, service,
}

abbrev fwd_lm_app : Deploy
fwd_lm_app = record deploy_app {
  deploy_type = "fwdlm";
  fwd_lm = record deploy_app.fwd_lm { data_rate = pos 10 };
}

-- A server whose clients all ask for a deployment.
abbrev deploy_server : ServerEnv World (Unit {0})
deploy_server = record server_env {
  json = record json {
    unmarshal_request =
        λ b. (none, record (dump_start_request restore) { method = "deploy"; deploy = deploy_app });
  };
}

abbrev with_app : ApiCore World
with_app = (handle_connection deploy_server "192.168.0.9:5000" conn core).1

with_app_served : Served deploy_server with_app
with_app_served = connected "192.168.0.9:5000" conn core (fresh host_conf "192.168.0.1" "" none)

-- With another application there.
abbrev other_app : Deploy
other_app = record deploy_app { name = "other" }

deploy-others_example :
    Holds
      (Kept
        (Entry "app" (lookup "app" with_app.resmap))
        (λ s. Entry "app" (lookup "app" with_app.resmap) s.resmap))
      (deploy api_env other_app with_app)
deploy-others_example = deploy-others api_env other_app "app" with_app (λ p. cc)

abbrev app_service : ForwarderService
app_service = record service { is_ext_host = false; data_rate = pos 0 }

served-open_example : app_service.chan_close ≡ false
unfolding handle_connection deploy deploy_new new_api_core load_or_store set_fwdsvc logged
    new_client create_new_pod create_or_get_cluster_ip forward_to_pod start_forwarding
    get_forward_addrs start_forwarder_service_dr wait_for_pod_ready create_pod create_service ◌>>=◌
    lookup insert to_pod_name to_service_name to_cluster_ip_name to_container_name
    dump_start_request
served-open_example = served-open deploy_server with_app "app" app_service with_app_served refl

removed-Cleared_example :
    Holds (Kept (Cleared api_env "app" with_app.world) (λ s. ⊥)) (remove api_env "app" with_app)
    × Cleared api_env "app" with_app.world
        (migrate_fwd api_env fwd_lm_app (remove api_env "app" with_app).1).1.resmap
removed-Cleared_example = removed-Cleared deploy_server fwd_lm_app with_app with_app_served

dump_start_request-Answered_example :
    (resp : Response) × ((dispatch server_env (dump_start_request restore) core).0 ≡ ok (some resp))
    × Answered api_env
        (record { name = "app"; dst_addr = "192.168.0.2"; bw_limit = pos 100 })
        core.host_addr
        core.dumps
        resp
        (dispatch server_env (dump_start_request restore) core).1.dumps
dump_start_request-Answered_example = dump_start_request-Answered server_env restore core

abbrev first_call : Result String × ApiCore World
first_call = create_or_get_cluster_ip api_env "app" "app-svc" "app-cip" (pos 80) core

abbrev second_call : Result String × ApiCore World
second_call = create_or_get_cluster_ip api_env "other" "app-svc" "other-cip" (pos 81) first_call.1

cluster_ip-stable_example :
    (second_call.0 ≡ first_call.0) × (second_call.1.world ≡ first_call.1.world)
unfolding create_or_get_cluster_ip new_api_core
cluster_ip-stable_example =
    cluster_ip-stable api_env keeps_services "app-svc" "app" "other" "app-cip" "other-cip" (pos 80)
      (pos 81) core (λ p. cc)

get_interface_addr-Outcome_example :
    Outcome "eth0" (none, interfaces) (get_interface_addr "eth0" (none, interfaces))
get_interface_addr-Outcome_example = get_interface_addr-Outcome "eth0" (none, interfaces)

abbrev with_service : ApiCore World
with_service = set_fwdsvc "app" (some service) core

abbrev limited : ForwarderService
limited = record service { server_addr = local_addr; data_rate = pos 10 }

migrate_fwd-Forwards_example :
    Holds
      (Kept
        (Forwards api_env fwd_lm_app local_addr (pos 10))
        (λ s. Forwards api_env fwd_lm_app local_addr (pos 10) s.resmap))
      (migrate_fwd api_env fwd_lm_app with_service)
unfolding set_fwdsvc new_api_core insert lookup
migrate_fwd-Forwards_example =
    migrate_fwd-Forwards api_env fwd_lm_app local_addr (pos 10) with_service
      (service, refl, refl, inl (refl, refl))

deploy_fwd_lm-EndsForwarding_example :
    EndsForwarding api_env fwd_lm_app (deploy_fwd_lm api_env fwd_lm_app core).1
unfolding deploy_fwd_lm new_api_core load_or_store ensure_forwarding set_fwdsvc logged
    start_forwarding get_forward_addrs start_forwarder_service_dr ◌>>=◌ lookup insert
deploy_fwd_lm-EndsForwarding_example =
    deploy_fwd_lm-EndsForwarding api_env fwd_lm_app core limited refl refl

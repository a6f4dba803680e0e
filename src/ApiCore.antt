-- ===== src/ApiCore.antt =====
-- `APICore` of server/api-core.go: its state, and the steps that its handlers share. The handlers are in
-- ApiCore.Handlers, ApiCore.DumpStart and ApiCore.Remove. The cluster, sockets and the rest of the
-- outside are parameters over a world `W`.
pub mod Handlers
pub mod DumpStart
pub mod Remove
pub mod Entries
pub mod Frame
pub mod Opened
pub mod Services
pub mod Cleared
pub mod Threads
pub mod Removed
pub mod Dumps
pub mod Migrated
pub mod Forwards
pub mod Sourced
pub mod Deployed
pub mod Address
use Prim.Native.String.{◌++◌}
use container_cloudlet.Common.{
  ℕ, String, ◌≡◌, refl, Bool, true, false, not, Option, none, some, List, [], ◌∷◌, ◌++◌ as append,
  ℤ, pos, to_int32, show_int, Map, lookup, insert, if◌then◌else◌, ◌==◌, string_eq,
}
use container_cloudlet.Go.{
  GoError, Result, ok, fail, panic, Try, return, modify, lift, answer, call, zoom, ◌>>=◌, ◌>>◌,
}
use container_cloudlet.Logger.{Level, error, warn, info, debug, Line}
use container_cloudlet.HostConf.{HostConf}
use container_cloudlet.Ssh.{Tunnel}
use container_cloudlet.Kube.{Cluster, Pod, Service, create_pod, create_service, get_service}
use container_cloudlet.FwdSvc.{ForwarderService, TcpAddr, start_forwarder_service_dr}
use container_cloudlet.Lm.Dump.{Service as DumpLoop}
use container_cloudlet.Lm.Dump.Start.{DumpEnv}
use container_cloudlet.Lm.Restore.{RestoreEnv}

-- In milliseconds.
abbrev pub wait_pod_timeout : ℕ
wait_pod_timeout = 30000

-- The mutex is held by a handler from `LoadOrStore` to its return.
pub record DeployResource : Type 0 where
  pub fwdsvc : Option ForwarderService

-- What a started dump service holds until its goroutine ends.
pub record Started : Type 0 where
  pub listener_open : Bool
  pub tunnel : Tunnel
  pub serving : Option DumpLoop

-- With the world, the calls of the logger, and the dump services that were started.
pub record ApiCore (W : Type 0) : Type 0 where
  pub host_conf : HostConf
  pub host_addr : String
  pub gateway_addr : String
  pub resmap : Map String DeployResource
  pub world : W
  pub log : List Line
  pub dumps : List Started

unfoldable pub new_api_core : {W : Type 0} → HostConf → String → String → W → ApiCore W
new_api_core host_conf host_addr gateway_addr w = record {
  host_conf = host_conf;
  host_addr = host_addr;
  gateway_addr = gateway_addr;
  resmap = [];
  world = w;
  log = [];
  dumps = [];
}

-- `PortMap`
pub record PortMap : Type 0 where
  pub in_port : ℤ
  pub ext_port : ℤ

unfoldable pub new_port_map : ℤ → ℤ → PortMap
new_port_map in_port ext_port = record { in_port = to_int32 in_port; ext_port = to_int32 ext_port }

unfoldable pub to_pod_name : String → String
to_pod_name name = name ++ "-pod"

unfoldable pub to_container_name : String → String
to_container_name name = name ++ "-c"

unfoldable pub to_service_name : String → String
to_service_name name = name ++ "-svc"

unfoldable pub to_cluster_ip_name : String → String
to_cluster_ip_name name = name ++ "-cip"

-- `config_host` is the host of the client's configuration.
pub record ApiEnv (W Signer : Type 0) : Type 0 where
  pub cluster : Cluster W
  pub config_host : String
  pub resolve_tcp_addr : String → W → (Option GoError × TcpAddr) × W
  pub listen_tcp : String → TcpAddr → W → Option GoError × W
  pub restore : RestoreEnv W
  pub dump : DumpEnv W Signer

abbrev pub put_world : {W : Type 0} → ApiCore W → W → ApiCore W
put_world s w = record s { world = w }

-- Code that changes the world alone.
abbrev pub in_world : {W A : Type 0} → Try W A → Try (ApiCore W) A
in_world = zoom (λ s. s.world) put_world

abbrev pub stored : Option DeployResource → Option ForwarderService
stored none = none
stored (some r) = r.fwdsvc

module _ {W : Type 0} where
  abbrev pub say : Level → String → ApiCore W → ApiCore W
  say l t s = record s { log = append s.log (record { level = l; text = t } ∷ []) }

  abbrev pub logged_result : Result (Unit {0}) × ApiCore W → Result (Unit {0}) × ApiCore W
  logged_result (ok a, s) = (ok a, s)
  logged_result (fail e, s) = (ok tt, say error e.text s)
  logged_result (panic m, s) = (panic m, s)

  -- `if err != nil { Logger.ErrorE(err) }` around code that ends at its first error.
  unfoldable pub logged : Try (ApiCore W) (Unit {0}) → Try (ApiCore W) (Unit {0})
  logged m s = logged_result (m s)

  -- `res.fwdsvc` of the entry for `name`
  abbrev pub fwdsvc_of : String → ApiCore W → Option ForwarderService
  fwdsvc_of name s = stored (lookup name s.resmap)

  unfoldable pub set_fwdsvc : String → Option ForwarderService → ApiCore W → ApiCore W
  set_fwdsvc name o s = record s { resmap = insert name (record { fwdsvc = o }) s.resmap }

  abbrev pub keep : ApiCore W → String → Option DeployResource → ApiCore W
  keep s name none = record s { resmap = insert name (record { fwdsvc = none }) s.resmap }
  keep s name (some r) = s

  -- `LoadOrStore` of an empty resource
  unfoldable pub load_or_store : String → ApiCore W → ApiCore W
  load_or_store name s = keep s name (lookup name s.resmap)

module _ {W Signer : Type 0} (env : ApiEnv W Signer) where
  -- `getForwardAddrs`
  unfoldable pub get_forward_addrs : ℤ → String → ℤ → Try W (TcpAddr × TcpAddr)
  unfolding show_int
  get_forward_addrs client_port remote_addr remote_port = do
    c ← answer (env.resolve_tcp_addr (":" ++ show_int client_port))
    r ← answer (env.resolve_tcp_addr (remote_addr ++ ":" ++ show_int remote_port))
    return (c, r)

  abbrev pod_answer : String → ApiCore W → (Option GoError × Pod) × W → Result Bool × ApiCore W
  pod_answer pod_name s ((none, pod), w) =
      (ok true, say info ("Creating pod: " ++ pod.name) (put_world s w))
  pod_answer pod_name s ((some e, pod), w) = (
    ok false,
    if e.already_exists
        then say info ("Use existing pod: " ++ pod_name) (put_world s w)
        else say error e.text (put_world s w),
  )

  -- `createNewPod`: whether a pod was created
  unfoldable pub create_new_pod :
      String
      → String
      → String
      → String
      → ℤ
      → List (String × String)
      → List String
      → List String
      → Try (ApiCore W) Bool
  unfolding create_pod
  create_new_pod label pod_name container_name image container_port env_map command args s =
      pod_answer pod_name s (
        create_pod env.cluster pod_name label container_name image container_port env_map command
          args s.world)

  abbrev created_answer : ApiCore W → (Option GoError × Service) × W → String × ApiCore W
  created_answer s ((none, svc), w) =
      (svc.cluster_ip, say info ("Creating service: " ++ svc.name) (put_world s w))
  created_answer s ((some e, svc), w) = ("", say error e.text (put_world s w))

  abbrev service_answer :
      String → String → String → ℤ → ApiCore W → (Option GoError × Service) × W → String × ApiCore W
  service_answer label service_name cluster_ip_name container_port s ((none, svc), w) =
      (svc.cluster_ip, say info ("Use existing service: " ++ svc.name) (put_world s w))
  service_answer label service_name cluster_ip_name container_port s ((some e, svc), w) =
      if e.not_found
      then created_answer s
          (create_service env.cluster service_name label cluster_ip_name container_port w)
      else ("", say error e.text (put_world s w))

  -- `createOrGetClusterIP`
  unfoldable pub create_or_get_cluster_ip : String → String → String → ℤ → Try (ApiCore W) String
  unfolding create_service get_service
  create_or_get_cluster_ip label service_name cluster_ip_name container_port s =
      let (ip, s') =
        service_answer label service_name cluster_ip_name container_port s
          (get_service env.cluster service_name s.world) in
      (ok ip, say debug ("ClusterIP: " ++ ip ++ "\n") s')

  abbrev listened : TcpAddr → TcpAddr → Bool → ℤ → Option GoError × W → Result ForwarderService × W
  listened client_addr remote_addr is_ext rate (e, w) =
      (start_forwarder_service_dr "tcp" client_addr remote_addr is_ext rate e, w)

  -- The block that resolves both addresses, starts a forwarding service and keeps it.
  unfoldable pub start_forwarding : String → ℤ → String → ℤ → Bool → ℤ → Try (ApiCore W) (Unit {0})
  unfolding get_forward_addrs start_forwarder_service_dr set_fwdsvc logged
  start_forwarding name port_ext addr port is_ext rate = logged (do
    addrs ← in_world (get_forward_addrs port_ext addr port)
    fsv ← in_world (λ w. listened addrs.0 addrs.1 is_ext rate (env.listen_tcp "tcp" addrs.0 w))
    modify (set_fwdsvc name (some fsv)))

  abbrev unless_stored :
      Option ForwarderService → Try (ApiCore W) (Unit {0}) → Try (ApiCore W) (Unit {0})
  unless_stored (some f) m s = (ok tt, say info "Use existing forwarding service" s)
  unless_stored none m s = m s

  -- The same unless there is a service for `name`.
  unfoldable pub ensure_forwarding : String → ℤ → String → ℤ → Bool → ℤ → Try (ApiCore W) (Unit {0})
  unfolding start_forwarding lookup
  ensure_forwarding name port_ext addr port is_ext rate s =
      unless_stored (fwdsvc_of name s) (start_forwarding name port_ext addr port is_ext rate) s

  -- The same to a pod, whose address is empty when it is unknown.
  unfoldable pub forward_to_pod : String → ℤ → String → ℤ → Try (ApiCore W) (Unit {0})
  unfolding start_forwarding
  forward_to_pod name port_ext cluster_ip port_in s =
      unless_stored (fwdsvc_of name s)
        (λ s.
          if not (cluster_ip == "")
          then start_forwarding name port_ext cluster_ip port_in false (pos 0) s
          else (
            ok tt,
            say error "Forwarding service cannot not started because ClusterIP is unknown" s,
          ))
        s

-- ===== src/ApiCore/Address.antt =====
-- `createOrGetClusterIP` of server/api-core.go, on a cluster that keeps the services it creates.
use container_cloudlet.Common.{String, ◌≡◌, ◌≢◌, none, ℤ, arith}
use container_cloudlet.Go.{ok}
use container_cloudlet.Kube.{Cluster, Service, service_spec, create_service}
use container_cloudlet.ApiCore.{ApiCore, ApiEnv, create_or_get_cluster_ip}

-- A read changes nothing, and a service that was created is found under its name.
pub record KeepsServices {W : Type 0} (cl : Cluster W) : Type 0 where
  pub read : (name : String) (w : W) → (cl.get_service name w).1 ≡ w
  pub created :
      (svc : Service) (w : W)
      → (cl.create_service svc w).0.0 ≡ none
      → (cl.get_service svc.name (cl.create_service svc w).1).0
        ≡ (none, (cl.create_service svc w).0.1)

module _ {W Signer : Type 0} (env : ApiEnv W Signer) (laws : KeepsServices env.cluster) where
  -- On a cluster that keeps services, where a call finds or creates a service, the next call for the
  -- same name answers the same address and leaves the cluster as it is, whatever its label, port and
  -- the name of the port.
  pub cluster_ip-stable :
      (name label label' port_name port_name' : String) (port port' : ℤ) (s : ApiCore W)
      → ((create_or_get_cluster_ip env label name port_name port s).0 ≢ ok "")
      → let first = create_or_get_cluster_ip env label name port_name port s in
        let next = create_or_get_cluster_ip env label' name port_name' port' first.1 in
        (next.0 ≡ first.0) × (next.1.world ≡ first.1.world)
  unfolding create_or_get_cluster_ip create_service service_spec
  cluster_ip-stable name label label' port_name port_name' port port' s n =
      let read = laws.read name s.world in
      let svc = service_spec name label port_name port in
      let read' = laws.read name (env.cluster.create_service svc s.world).1 in
      ground (arith, laws.created svc s.world)

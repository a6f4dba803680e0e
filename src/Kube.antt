-- ===== src/Kube.antt =====
-- server/kube.go: pods and services. The client library (client-go, and `wait.PollImmediate` of
-- apimachinery) is a parameter over a cluster in state `W`. The second error that the functions
-- return is the first with a stack trace.
use container_cloudlet.Common.{
  ℕ, String, Bool, true, false, not, Option, none, some, List, [], ◌∷◌, ℤ, if◌then◌else◌,
}
use container_cloudlet.Go.{GoError, Try, call, ◌>>◌}

-- `apiv1.EnvVar`
pub record EnvVar : Type 0 where
  pub name : String
  pub value : String

-- `apiv1.Container`
pub record PodContainer : Type 0 where
  pub name : String
  pub image : String
  pub image_pull_policy : String
  pub command : List String
  pub args : List String
  pub container_port : ℤ
  pub env : List EnvVar
  pub privileged : Bool

-- `apiv1.Pod`
pub record Pod : Type 0 where
  pub kind : String
  pub api_version : String
  pub name : String
  pub labels : List (String × String)
  pub container : PodContainer
  pub share_process_namespace : Bool
  pub image_pull_secrets : List String
  pub restart_policy : String

-- `apiv1.PodPhase`
pub data PodPhase : Type 0 where
  pending running succeeded failed unknown : PodPhase

-- `apiv1.Service`; `cluster_ip` is set by the cluster.
pub record Service : Type 0 where
  pub kind : String
  pub api_version : String
  pub name : String
  pub labels : List (String × String)
  pub service_type : String
  pub port_name : String
  pub protocol : String
  pub port : ℤ
  pub selector : List (String × String)
  pub cluster_ip : String

-- In the namespace "default".
pub record Cluster (W : Type 0) : Type 0 where
  pub build_config : W → Option GoError × W
  pub new_for_config : W → Option GoError × W
  pub create_pod : Pod → W → (Option GoError × Pod) × W
  pub get_pod_phase : String → W → (Option GoError × PodPhase) × W
  pub delete_pod : String → W → Option GoError × W
  pub create_service : Service → W → (Option GoError × Service) × W
  pub get_service : String → W → (Option GoError × Service) × W
  pub delete_service : String → W → Option GoError × W
  -- `wait.PollImmediate(PollInterval, timeout, condFunc)`
  pub poll_immediate : ℕ → ℕ → (W → (Option GoError × Bool) × W) → W → Option GoError × W

-- In milliseconds.
abbrev pub poll_interval : ℕ
poll_interval = 100

abbrev pub env_vars : List (String × String) → List EnvVar
env_vars [] = []
env_vars ((k, v) ∷ m) = (record { name = k; value = v }) ∷ env_vars m

unfoldable pub pod_spec :
    String → String → String → String → ℤ → List (String × String) → List String → List String → Pod
pod_spec pod_name label container_name image container_port env command args = record {
  kind = "Pod";
  api_version = "v1";
  name = pod_name;
  labels = ("app", label) ∷ [];
  container = record {
    name = container_name;
    image = image;
    image_pull_policy = "Always";
    command = command;
    args = args;
    container_port = container_port;
    env = env_vars env;
    privileged = true;
  };
  share_process_namespace = true;
  image_pull_secrets = "regcred" ∷ [];
  restart_policy = "Never";
}

unfoldable pub service_spec : String → String → String → ℤ → Service
service_spec service_name label cluster_ip_name port = record {
  kind = "Service";
  api_version = "v1";
  name = service_name;
  labels = ("app", label) ∷ [];
  service_type = "ClusterIP";
  port_name = cluster_ip_name;
  protocol = "TCP";
  port = port;
  selector = ("app", label) ∷ [];
  cluster_ip = "";
}

abbrev pub is_pending : PodPhase → Bool
is_pending pending = true
is_pending _ = false

module _ {W : Type 0} (cl : Cluster W) where
  -- `NewClient`
  unfoldable pub new_client : Try W (Unit {0})
  new_client = do call cl.build_config; call cl.new_for_config

  -- `CreatePod`
  unfoldable pub create_pod :
      String
      → String
      → String
      → String
      → ℤ
      → List (String × String)
      → List String
      → List String
      → W
      → (Option GoError × Pod) × W
  unfolding pod_spec
  create_pod pod_name label container_name image container_port env command args =
      cl.create_pod (pod_spec pod_name label container_name image container_port env command args)

  -- `CreateService`
  unfoldable pub create_service : String → String → String → ℤ → W → (Option GoError × Service) × W
  unfolding service_spec
  create_service service_name label cluster_ip_name port =
      cl.create_service (service_spec service_name label cluster_ip_name port)

  -- `GetPod`, of which the callers read the phase, and `DeletePod`
  unfoldable pub get_pod : String → W → (Option GoError × PodPhase) × W
  get_pod pod_name = cl.get_pod_phase pod_name

  unfoldable pub delete_pod : String → W → Option GoError × W
  delete_pod pod_name = cl.delete_pod pod_name

  -- `GetService` and `DeleteService`
  unfoldable pub get_service : String → W → (Option GoError × Service) × W
  get_service service_name = cl.get_service service_name

  unfoldable pub delete_service : String → W → Option GoError × W
  delete_service service_name = cl.delete_service service_name

  abbrev ready_answer : Option GoError × PodPhase → Option GoError × Bool
  ready_answer (some e, ph) = (some e, false)
  ready_answer (none, ph) = (none, not (is_pending ph))

  -- `IsPodReady`
  unfoldable pub is_pod_ready : String → W → (Option GoError × Bool) × W
  unfolding get_pod
  is_pod_ready pod_name w = let (r, w') = get_pod pod_name w in (ready_answer r, w')

  abbrev deleted_answer : Option GoError × PodPhase → Option GoError × Bool
  deleted_answer (some e, ph) = if e.not_found then (none, true) else (some e, false)
  deleted_answer (none, ph) = (none, false)

  -- `IsPodDeleted`
  unfoldable pub is_pod_deleted : String → W → (Option GoError × Bool) × W
  unfolding get_pod
  is_pod_deleted pod_name w = let (r, w') = get_pod pod_name w in (deleted_answer r, w')

  -- `WaitForPodReady` and `WaitForPodDeleted`, with a timeout in milliseconds
  unfoldable pub wait_for_pod_ready : String → ℕ → W → Option GoError × W
  unfolding is_pod_ready
  wait_for_pod_ready pod_name timeout =
      cl.poll_immediate poll_interval timeout (is_pod_ready pod_name)

  unfoldable pub wait_for_pod_deleted : String → ℕ → W → Option GoError × W
  unfolding is_pod_deleted
  wait_for_pod_deleted pod_name timeout =
      cl.poll_immediate poll_interval timeout (is_pod_deleted pod_name)

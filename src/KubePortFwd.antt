-- ===== src/KubePortFwd.antt =====
-- server/kube-portfwd.go: the port-forward to a pod. client-go's spdy and portforward are parameters.
pub mod Host
use Prim.Native.Char.{Char, code}
use Prim.Native.String.{◌++◌}
use container_cloudlet.Common.{
  ℕ, String, ◌≡◌, refl, Bool, true, false, ◌||◌, Option, none, some, List, [], ◌∷◌, ◌==◌, nat_eq,
  if◌then◌else◌, show_nat,
}
use container_cloudlet.Go.{GoError, Result, ok, fail, Try, call, return, ◌>>=◌, ◌>>◌}

-- `strings.ContainsRune`
unfoldable pub has_char : String → Char → Bool
has_char String.[] c = false
has_char (String.◌∷◌ d ds) c = (code d == code c) || has_char ds c

-- `strings.TrimLeft`: without the characters at the beginning that are in the cutset.
unfoldable pub trim_left : String → String → String
trim_left String.[] cutset = String.[]
trim_left (String.◌∷◌ c s) cutset =
    let rest = trim_left s cutset in if has_char cutset c then rest else String.◌∷◌ c s

abbrev pub scheme_cutset : String
scheme_cutset = "htps:/"

-- `url.URL`, as far as it is set
pub record Url : Type 0 where
  pub scheme : String
  pub path : String
  pub host : String

pub record PortForward : Type 0 where
  pub url : Url
  pub addrs : List String
  pub ports : List String

-- What the select of `OpenKubePortForwardReady` receives first.
pub data Opened : Type 0 where
  ready : Opened
  failed_with : GoError → Opened

pub record PortForwardEnv (W : Type 0) : Type 0 where
  pub round_tripper : W → Option GoError × W
  pub new_on_addresses : PortForward → W → Option GoError × W
  pub forward_ports : PortForward → W → Opened × W

unfoldable pub port_forward_request : String → String → String → ℕ → ℕ → PortForward
unfolding has_char trim_left show_nat
port_forward_request config_host namespace pod_name local_port pod_port = record {
  url = record {
    scheme = "https";
    path = "/api/v1/namespaces/" ++ namespace ++ "/pods/" ++ pod_name ++ "/portforward";
    host = trim_left config_host scheme_cutset;
  };
  addrs = "0.0.0.0" ∷ [];
  ports = (show_nat local_port ++ ":" ++ show_nat pod_port) ∷ [];
}

module _ {W : Type 0} (env : PortForwardEnv W) where
  -- `NewKubePortForward`
  unfoldable pub new_kube_port_forward : String → String → String → ℕ → ℕ → Try W PortForward
  unfolding port_forward_request
  new_kube_port_forward config_host namespace pod_name local_port pod_port = do
    call env.round_tripper
    let request = port_forward_request config_host namespace pod_name local_port pod_port
    call (env.new_on_addresses request)
    return request

  abbrev received : Opened → Result (Unit {0})
  received ready = ok tt
  received (failed_with e) = fail e

  unfoldable pub wait_ready : PortForward → Try W (Unit {0})
  wait_ready request w = let (o, w') = env.forward_ports request w in (received o, w')

  -- `OpenKubePortForwardReady`
  unfoldable pub open_kube_port_forward_ready : String → String → String → ℕ → ℕ → Try W (Unit {0})
  unfolding new_kube_port_forward wait_ready
  open_kube_port_forward_ready config_host namespace pod_name local_port pod_port = do
    request ← new_kube_port_forward config_host namespace pod_name local_port pod_port
    wait_ready request

-- ===== src/HostConf.antt =====
-- server/hostconf.go: the configuration of the host, read from a file. gopkg.in/yaml.v2 is a parameter.
use container_cloudlet.Common.{ℕ, String, Option, List}
use container_cloudlet.Go.{GoError, Try, answer, lift, return, of_error, ◌>>=◌}

pub record HostConf : Type 0 where
  pub host_network_interface : String
  pub ssh_local_server_addr : String
  pub ssh_user : String
  pub ssh_key_path : String

abbrev pub host_conf_path : String
host_conf_path = "./hostconf.yaml"

abbrev zero_conf : HostConf
zero_conf = record {
  host_network_interface = "";
  ssh_local_server_addr = "";
  ssh_user = "";
  ssh_key_path = "";
}

-- `yaml.Unmarshal` sets the fields that the text has.
pub record ConfEnv (W : Type 0) : Type 0 where
  pub read_file : String → W → (Option GoError × List ℕ) × W
  pub unmarshal : List ℕ → HostConf → Option GoError × HostConf

module _ {W : Type 0} (env : ConfEnv W) where
  unfoldable pub load_host_conf_from : String → Try W HostConf
  load_host_conf_from path = do
    b ← answer (env.read_file path)
    conf ← lift (of_error (env.unmarshal b zero_conf).1 (env.unmarshal b zero_conf).0)
    return conf

  unfoldable pub load_host_conf : Try W HostConf
  unfolding load_host_conf_from
  load_host_conf = load_host_conf_from host_conf_path

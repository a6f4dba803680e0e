-- ===== src/Ssh.antt =====
-- server/ssh.go: the SSH client and its tunnels. golang.org/x/crypto/ssh, files and sockets are
-- parameters.
pub mod Routes
pub mod Held
pub mod Closing
use container_cloudlet.Common.{ℕ, String, Bool, true, false, Option, none, some, List}
use container_cloudlet.HostConf.{HostConf}
use container_cloudlet.Go.{GoError, Try, answer, lift, return, ◌>>=◌, of_error}

pub record ClientConfig (Signer : Type 0) : Type 0 where
  pub user : String
  pub auth : Signer

pub record SshClient (Signer : Type 0) : Type 0 where
  pub local_server_addr : String
  pub client_config : ClientConfig Signer

pub record SshEnv (W Signer : Type 0) : Type 0 where
  pub read_file : String → W → (Option GoError × List ℕ) × W
  pub parse_private_key : List ℕ → Option GoError × Signer
  pub dial : String → ClientConfig Signer → W → Option GoError × W
  pub listen : String → W → Option GoError × W

-- What `OpenTunnel` leaves open until its channel is closed.
pub record Tunnel : Type 0 where
  pub client_open : Bool
  pub listener_open : Bool
  -- the address that its routes dial
  pub remote_addr : String

abbrev pub closed_tunnel : Tunnel
closed_tunnel = record { client_open = false; listener_open = false; remote_addr = "" }

abbrev pub both_open : String → Tunnel
both_open remote_addr = record {
  client_open = true;
  listener_open = true;
  remote_addr = remote_addr;
}

module _ {W Signer : Type 0} (env : SshEnv W Signer) where
  unfoldable pub new_ssh_client : HostConf → Try W (SshClient Signer)
  new_ssh_client conf = do
    key ← answer (env.read_file conf.ssh_key_path)
    signer ← lift (of_error (env.parse_private_key key).1 (env.parse_private_key key).0)
    return (record {
      local_server_addr = conf.ssh_local_server_addr;
      client_config = record { user = conf.ssh_user; auth = signer };
    })

  abbrev listening : String → Option GoError × W → (Option GoError × Tunnel) × W
  listening remote_addr (none, w) = ((none, both_open remote_addr), w)
  listening remote_addr (some e, w) =
      ((some e, record (both_open remote_addr) { listener_open = false }), w)

  abbrev dialled : String → String → Option GoError × W → (Option GoError × Tunnel) × W
  dialled local_addr remote_addr (none, w) = listening remote_addr (env.listen local_addr w)
  dialled local_addr remote_addr (some e, w) = ((some e, closed_tunnel), w)

  -- The error, and what is open from here on.
  unfoldable pub open_tunnel :
      SshClient Signer → String → String → W → (Option GoError × Tunnel) × W
  open_tunnel p local_addr remote_addr w =
      dialled local_addr remote_addr (env.dial p.local_server_addr p.client_config w)

-- The goroutines that wait for the channel close both.
unfoldable pub close_tunnel : Tunnel → Tunnel
close_tunnel t = closed_tunnel

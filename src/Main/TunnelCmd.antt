-- ===== src/Main/TunnelCmd.antt =====
-- `doTunnelCmd` of server/main.go.
use Prim.Native.String.{◌++◌}
use container_cloudlet.Common.{String, ◌≡◌, ap, Option, none, some, List, [], ◌∷◌}
use container_cloudlet.Go.{GoError, Result, ok, fail, panic}
use container_cloudlet.HostConf.{HostConf}
use container_cloudlet.Ssh.{
  SshClient, SshEnv, Tunnel, closed_tunnel, new_ssh_client, open_tunnel, close_tunnel,
}

-- What is printed, and what is open while the command waits for a signal, if it comes to that.
pub record Waited : Type 0 where
  pub printed : List String
  pub waits_with : Option Tunnel
  -- behind `close(chanClose)`
  pub left : Tunnel

abbrev pub opened_message : String
opened_message = "Open SSH tunnel; Ctrl-C to abort"

abbrev pub gave_up : String → Waited
gave_up m = record { printed = m ∷ []; waits_with = none; left = closed_tunnel }

module _ {W Signer : Type 0} (env : SshEnv W Signer) where
  -- The error of `OpenTunnel` is not looked at.
  abbrev waiting : (Option GoError × Tunnel) × W → Waited × W
  waiting ((e, t), w) =
      (record { printed = opened_message ∷ []; waits_with = some t; left = close_tunnel t }, w)

  abbrev with_client : String → String → Result (SshClient Signer) × W → Waited × W
  with_client local_addr remote_addr (ok p, w) =
      waiting (open_tunnel env p local_addr remote_addr w)
  with_client local_addr remote_addr (fail e, w) = (gave_up e.text, w)
  with_client local_addr remote_addr (panic m, w) = (gave_up m, w)

  -- The words of the line, the command first.
  unfoldable pub do_tunnel_cmd : HostConf → List String → W → Waited × W
  unfolding new_ssh_client open_tunnel close_tunnel
  do_tunnel_cmd conf (cmd ∷ local_addr ∷ remote_addr ∷ rest) w =
      with_client local_addr remote_addr (new_ssh_client env conf w)
  do_tunnel_cmd conf (cmd ∷ rest) w =
      (gave_up ("Usage: " ++ cmd ++ " <local-addr> <remote-addr>\n"), w)
  do_tunnel_cmd conf [] w = (gave_up "", w)

  with_client-waits :
      (local_addr remote_addr : String) (p : SshClient Signer) (w : W)
      (r : Result (SshClient Signer) × W)
      → r ≡ (ok p, w)
      → with_client local_addr remote_addr r ≡ waiting (open_tunnel env p local_addr remote_addr w)
  with_client-waits local_addr remote_addr p w r e = ap (with_client local_addr remote_addr) e

  -- Once the client could be made of the configuration, the command says that the tunnel is open and
  -- waits for a signal, whatever `OpenTunnel` answers: also if it could not connect and nothing is open,
  -- or if it could not listen and only the client is. What was open is closed when the signal comes.
  do_tunnel_cmd_waits :
      (conf : HostConf) (cmd local_addr remote_addr : String) (rest : List String) (w w' : W)
      (p : SshClient Signer)
      → new_ssh_client env conf w ≡ (ok p, w')
      → let opened = open_tunnel env p local_addr remote_addr w' in
        do_tunnel_cmd conf (cmd ∷ local_addr ∷ remote_addr ∷ rest) w ≡ (
          record {
            printed = opened_message ∷ [];
            waits_with = some opened.0.1;
            left = closed_tunnel;
          },
          opened.1,
        )
  unfolding do_tunnel_cmd close_tunnel
  do_tunnel_cmd_waits conf cmd local_addr remote_addr rest w w' p e =
      with_client-waits local_addr remote_addr p w' (new_ssh_client env conf w) e

-- ===== src/Lm/Dump/Start.antt =====
-- `LM_DumpService.Start` of server/lm.go up to its goroutine, with what it opens and closes.
use Prim.Native.String.{◌++◌}
use container_cloudlet.Common.{ℕ, ◌+◌, String, Bool, true, false, Option, none, some, ℤ, show_nat}
use container_cloudlet.Go.{GoError, Try, modify, lift, call, zoom, on_error, ◌>>=◌, ◌>>◌}
use container_cloudlet.KubeExec.{Container, Executor, read_pod_file}
use container_cloudlet.Strconv.{atoi}
use container_cloudlet.HostConf.{HostConf}
use container_cloudlet.Ssh.{SshClient, SshEnv, Tunnel, closed_tunnel, new_ssh_client, open_tunnel}
use container_cloudlet.Lm.{host_msg_port, host_data_port, main_pid_file_path}
use container_cloudlet.Lm.Dump.{Service}

-- `LM_DumpService`, without the handles that are parameters.
pub record DumpService : Type 0 where
  pub target : Container
  pub this_addr : String
  pub dst_addr : String
  pub bw_limit : ℤ

pub record DumpEnv (W Signer : Type 0) : Type 0 where
  pub ssh : SshEnv W Signer
  pub exec : Executor W
  pub resolve_tcp_addr : String → W → Option GoError × W
  pub listen_tcp : String → W → Option GoError × W

-- The world, the message listener, the tunnel with how often its channel was closed, and the
-- service that a goroutine runs.
pub record Host (W : Type 0) : Type 0 where
  pub world : W
  pub listener_open : Bool
  pub tunnel : Tunnel
  pub chan_closes : ℕ
  pub serving : Option Service

abbrev pub put_world : {W : Type 0} → Host W → W → Host W
put_world h w = record h { world = w }

abbrev pub in_world : {W A : Type 0} → Try W A → Try (Host W) A
in_world = zoom (λ h. h.world) put_world

abbrev pub close_listener : {W : Type 0} → Host W → Host W
close_listener h = record h { listener_open = false }

-- `close(sshCloseChan)` ends the tunnel.
abbrev pub close_ssh_chan : {W : Type 0} → Host W → Host W
close_ssh_chan h = record h { tunnel = closed_tunnel; chan_closes = h.chan_closes + 1 }

-- `remoteEndAddr`
abbrev pub remote_end_addr : String → String
remote_end_addr dst_addr = dst_addr ++ ":" ++ show_nat host_data_port

module _ {W Signer : Type 0} (env : DumpEnv W Signer) (conf : HostConf) (p : DumpService) where
  abbrev pub keep_tunnel : Host W → (Option GoError × Tunnel) × W → Option GoError × Host W
  keep_tunnel h ((e, t), w) = (e, record h { world = w; tunnel = t })

  unfoldable pub open_ssh_tunnel :
      SshClient Signer → String → String → Host W → Option GoError × Host W
  open_ssh_tunnel client local_addr remote_addr h =
      keep_tunnel h (open_tunnel env.ssh client local_addr remote_addr h.world)

  unfoldable pub get_main_pid : Try W ℤ
  get_main_pid = do v ← read_pod_file env.exec p.target main_pid_file_path; lift (atoi v)

  abbrev spawn : ℤ → Host W → Host W
  spawn pid h = record h {
    serving =
        some
          (record { target = p.target; this_addr = p.this_addr; bw_limit = p.bw_limit; pid = pid });
  }

  -- From the tunnel on; an error closes the channel.
  unfoldable pub start_tunnel : SshClient Signer → Try (Host W) (Unit {0})
  start_tunnel client =
      on_error
        (do
          call (
              open_ssh_tunnel client (p.this_addr ++ ":" ++ show_nat host_data_port)
                (remote_end_addr p.dst_addr))
          pid ← in_world get_main_pid
          modify (spawn pid))
        close_ssh_chan

  -- From the listener on; an error closes it.
  unfoldable pub start_listening : Try (Host W) (Unit {0})
  start_listening =
      on_error (do client ← in_world (new_ssh_client env.ssh conf); start_tunnel client)
        close_listener

  unfoldable pub start : Try (Host W) (Unit {0})
  start = do
    in_world (call (env.resolve_tcp_addr (":" ++ show_nat host_msg_port)))
    in_world (call (env.listen_tcp (":" ++ show_nat host_msg_port)))
    modify (λ h. record h { listener_open = true })
    start_listening

  -- The goroutine's `defer`, when its loop has returned.
  unfoldable pub finish : Host W → Host W
  finish h = record (close_listener (close_ssh_chan h)) { serving = none }

abbrev pub idle : {W : Type 0} → W → Host W
idle w = record {
  world = w;
  listener_open = false;
  tunnel = closed_tunnel;
  chan_closes = 0;
  serving = none;
}

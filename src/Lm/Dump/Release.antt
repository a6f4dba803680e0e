-- ===== src/Lm/Dump/Release.antt =====
-- What `LM_DumpService.Start` (server/lm.go) leaves open, on every path.
use container_cloudlet.Common.{
  ◌≡◌, true, false, Option, none, some, ℤ, arith, ◌≤◌, String, show_nat,
}
use container_cloudlet.Go.Ensures.{
  Post, Holds, past_error, Ensures, Ensures-bind, Ensures-on_error, Ensures-modify, Ensures-call,
  Ensures-part, Returns, Returns-bind,
}
use container_cloudlet.KubeExec.{Container, Executor, execute_pod, read_pod_file}
use container_cloudlet.Strconv.{atoi, atoi_returns}
use container_cloudlet.Go.{lift, call, GoError, ◌>>=◌}
use container_cloudlet.HostConf.{HostConf}
use container_cloudlet.Ssh.{SshClient, closed_tunnel, both_open, open_tunnel, new_ssh_client}
use container_cloudlet.Lm.{host_data_port}
use Prim.Native.String.{◌++◌}
use container_cloudlet.Lm.Dump.Start.{
  DumpService, DumpEnv, remote_end_addr, Host, get_main_pid, start_tunnel, start_listening, start,
  close_listener, open_ssh_tunnel, finish, idle,
}

-- Nothing is left open or running, and the channel was closed once at most.
pub record IsReleased {W : Type 0} (h : Host W) : Type 0 where
  pub listener : h.listener_open ≡ false
  pub tunnel : h.tunnel ≡ closed_tunnel
  pub once : h.chan_closes ≤ 1
  pub quiet : h.serving ≡ none

-- The service runs over an open listener and an open tunnel.
pub record IsServing {W : Type 0} (p : DumpService) (pid : ℤ) (h : Host W) : Type 0 where
  pub listener : h.listener_open ≡ true
  pub tunnel : h.tunnel ≡ both_open (remote_end_addr p.dst_addr)
  pub untouched : h.chan_closes ≡ 0
  pub service :
      h.serving
      ≡ some
          (record { target = p.target; this_addr = p.this_addr; bw_limit = p.bw_limit; pid = pid })

-- Released after an error, serving after none, and no panic.
abbrev pub Outcome : {W : Type 0} → DumpService → Post (Host W) (Unit {0})
Outcome p = record {
  returned = λ _ h. (pid : ℤ) × IsServing p pid h;
  errored = IsReleased;
  panicked = λ _. ⊥;
}

-- Inside the two listeners' `defer`s.
record IsOpen {W : Type 0} (h : Host W) : Type 0 where
  listener : h.listener_open ≡ true
  untouched : h.chan_closes ≡ 0
  quiet : h.serving ≡ none

pub record IsIdle {W : Type 0} (h : Host W) : Type 0 where
  listener : h.listener_open ≡ false
  tunnel : h.tunnel ≡ closed_tunnel
  untouched : h.chan_closes ≡ 0
  quiet : h.serving ≡ none

record IsListening {W : Type 0} (h : Host W) : Type 0 where
  before : IsOpen h
  tunnel : h.tunnel ≡ closed_tunnel

record IsTunnelled {W : Type 0} (p : DumpService) (h : Host W) : Type 0 where
  before : IsOpen h
  tunnel : h.tunnel ≡ both_open (remote_end_addr p.dst_addr)

read_pod_file-Returns :
    {W : Type 0} (x : Executor W) (c : Container) (path : String) → Returns (read_pod_file x c path)
unfolding read_pod_file execute_pod
read_pod_file-Returns x c path = record { at = λ w m h. ground arith }

call-Returns : {W : Type 0} (m : W → Option GoError × W) → Returns (call m)
unfolding call
call-Returns m = record { at = λ w x h. ground arith }

atoi-Returns : {W : Type 0} (s : String) → Returns {S = W} (lift (atoi s))
unfolding lift
atoi-Returns s = record { at = λ _. atoi_returns s }

module _ {W Signer : Type 0} (env : DumpEnv W Signer) (conf : HostConf) (p : DumpService) where
  tunnel_open :
      (c : SshClient Signer) (a b : String) (w : W)
      → (open_tunnel env.ssh c a b w).0.0 ≡ none
      → (open_tunnel env.ssh c a b w).0.1 ≡ both_open b
  unfolding open_tunnel
  tunnel_open c a b w h = ground arith

  get_main_pid-Returns : Returns (get_main_pid env conf p)
  unfolding get_main_pid
  get_main_pid-Returns = Returns-bind (read_pod_file-Returns _ _ _) (λ v. atoi-Returns v)

  new_ssh_client-Returns : Returns (new_ssh_client env.ssh conf)
  unfolding new_ssh_client ◌>>=◌
  new_ssh_client-Returns = record { at = λ w m h. ground arith }

  start_tunnel-Outcome :
      (c : SshClient Signer)
      → Ensures IsListening (start_tunnel env conf p c) (past_error close_listener (Outcome p))
  unfolding start_tunnel open_ssh_tunnel
  start_tunnel-Outcome c = Ensures-on_error _ (
      Ensures-bind (λ _. IsTunnelled p)
        (Ensures-call _
          (λ h o e. ground (
            arith,
            tunnel_open c (p.this_addr ++ ":" ++ show_nat host_data_port)
                (remote_end_addr p.dst_addr) h.world,
          ))
          (λ h o x e. ground arith))
        (λ _.
          Ensures-bind (λ _. IsTunnelled p)
            (Ensures-part _ _ _ get_main_pid-Returns (λ h o a u. ground arith)
              (λ h o u. ground arith))
            (λ pid. Ensures-modify _ (λ h o. (pid, ground arith)))))

  start_listening-Outcome : Ensures IsListening (start_listening env conf p) (Outcome p)
  unfolding start_listening
  start_listening-Outcome = Ensures-on_error _ (
      Ensures-bind (λ _. IsListening)
        (Ensures-part _ _ _ new_ssh_client-Returns (λ h o a u. ground arith)
          (λ h o u. ground arith))
        (λ c. start_tunnel-Outcome c))

  begin-Outcome : Ensures IsIdle (start env conf p) (Outcome p)
  unfolding start
  begin-Outcome =
      Ensures-bind (λ _. IsIdle)
        (Ensures-part _ _ _ (call-Returns _) (λ h o a u. ground arith) (λ h o u. ground arith))
        (λ _.
          Ensures-bind (λ _. IsIdle)
            (Ensures-part _ _ _ (call-Returns _) (λ h o a u. ground arith) (λ h o u. ground arith))
            (λ _.
              Ensures-bind (λ _. IsListening) (Ensures-modify _ (λ h o. ground arith))
                (λ _. start_listening-Outcome)))

  -- From nothing open, with any world: after an error the message listener and the tunnel are closed
  -- again, the tunnel's channel has been closed once at most, and no goroutine serves; after no error
  -- both are open, the channel is not closed, and the goroutine serves with some process id. `Start`
  -- does not panic.
  pub start-Outcome : (w : W) → Holds (Outcome p) (start env conf p (idle w))
  start-Outcome w = begin-Outcome.at (idle w) (ground arith)

  -- When the goroutine of a service ends, all that `Start` opened is closed, the channel once.
  pub finish-IsReleased :
      (h : Host W) (pid : ℤ) → IsServing p pid h → IsReleased (finish env conf p h)
  unfolding finish
  finish-IsReleased h pid v = ground arith

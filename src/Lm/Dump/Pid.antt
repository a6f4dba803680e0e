-- ===== src/Lm/Dump/Pid.antt =====
-- The process id that `getMainPid` of server/lm.go reads.
use container_cloudlet.Common.{ℕ, ◌^◌, ◌<◌, ◌≡◌, pos, show_nat}
use container_cloudlet.Go.{ok, lift, ◌>>=◌}
use container_cloudlet.Strconv.{atoi-show_nat}
use container_cloudlet.KubeExec.{read_pod_file}
use container_cloudlet.HostConf.{HostConf}
use container_cloudlet.Lm.{main_pid_file_path}
use container_cloudlet.Lm.Dump.Start.{DumpService, DumpEnv, get_main_pid}

module _ {W Signer : Type 0} (env : DumpEnv W Signer) (conf : HostConf) (p : DumpService) where
  -- Where the container's file holds the digits of a number that fits in an `int`, and no newline behind
  -- them, `getMainPid` answers that number.
  get_main_pid-show_nat :
      (w : W) (n : ℕ)
      → n < 2 ^ 63
      → (read_pod_file env.exec p.target main_pid_file_path w).0 ≡ ok (show_nat n)
      → (get_main_pid env conf p w).0 ≡ ok (pos n)
  unfolding get_main_pid lift ◌>>=◌
  get_main_pid-show_nat w n fits e = rw e (atoi-show_nat n fits)

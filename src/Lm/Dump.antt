-- ===== src/Lm/Dump.antt =====
-- `LM_DumpService` of server/lm.go: the source host's side of a migration.
pub mod Serve
pub mod Answers
pub mod Pid
pub mod Start
pub mod Release
pub mod Connection
pub mod Ended
use Prim.Native.String.{◌++◌}
use container_cloudlet.Lm.{
  host_data_port, dump_images_dir, rsync_module_name, rsync_module_directory, req_pre_dump,
  req_dump, resp_ok, resp_error,
}
use container_cloudlet.Common.{
  ℕ, ◌*◌, ◌-◌, to_int64, Option, none, String, Bool, List, [], ◌∷◌, ℤ, pos, negsuc, is_pos,
  show_nat, show_int, if◌then◌else◌, ltb, ◌==◌, nat_eq, string_eq, not,
}
use container_cloudlet.Go.{failed, GoError, Result, ok, fail, panic}
use container_cloudlet.KubeExec.{Container, Executor, Stdout, attached, execute_pod}

-- The fields of the service that its loop uses, with the local variables of `Start`.
pub record Service : Type 0 where
  pub target : Container
  pub this_addr : String
  pub bw_limit : ℤ
  -- the main process of the container
  pub pid : ℤ

-- `getRsyncBandwidth`: Mbit/s to KiB/s, in an `int`.
unfoldable pub get_rsync_bandwidth : ℤ → ℤ
get_rsync_bandwidth (pos n) = if ltb 0 n then to_int64 (pos (n * 122)) else pos 0
get_rsync_bandwidth (negsuc n) = pos 0

unfoldable pub rsync_bw_opt : ℤ → String
unfolding show_int
rsync_bw_opt bw = if is_pos bw then "--bwlimit=" ++ show_int bw else ""

-- `--prev-images-dir`, from the second round on.
unfoldable pub prev_images_dir_opt : ℕ → String
unfolding show_nat
prev_images_dir_opt itercnt =
    if ltb 1 itercnt then "--prev-images-dir ../" ++ show_nat (itercnt - 1) else ""

unfoldable pub pre_dump_script : Service → ℕ → String
unfolding get_rsync_bandwidth rsync_bw_opt prev_images_dir_opt show_int
pre_dump_script p itercnt =
    let images_dir = dump_images_dir ++ "/" ++ show_nat itercnt in
    "mkdir -p "
    ++ dump_images_dir
    ++ "/"
    ++ show_nat itercnt
    ++ " && criu pre-dump --tree "
    ++ show_int p.pid
    ++ " --images-dir "
    ++ images_dir
    ++ " "
    ++ prev_images_dir_opt itercnt
    ++ " --tcp-close --shell-job"
    ++ " && rsync "
    ++ rsync_bw_opt (get_rsync_bandwidth p.bw_limit)
    ++ " -rlOt "
    ++ rsync_module_directory
    ++ "/ rsync://"
    ++ p.this_addr
    ++ ":"
    ++ show_nat host_data_port
    ++ "/"
    ++ rsync_module_name

unfoldable pub dump_script : Service → ℕ → String
unfolding prev_images_dir_opt show_int
dump_script p itercnt =
    let images_dir = dump_images_dir ++ "/final" in
    "mkdir -p "
    ++ dump_images_dir
    ++ "/final"
    ++ " && criu dump --tree "
    ++ show_int p.pid
    ++ " --images-dir "
    ++ images_dir
    ++ " "
    ++ prev_images_dir_opt itercnt
    ++ " --tcp-close --shell-job --track-mem"
    ++ " && rsync -rlOt "
    ++ rsync_module_directory
    ++ "/ rsync://"
    ++ p.this_addr
    ++ ":"
    ++ show_nat host_data_port
    ++ "/"
    ++ rsync_module_name

-- One request that arrived, as the `itercnt`-th: the reply.
module _ {W : Type 0} (x : Executor W) (p : Service) where
  abbrev reply : Result String × W → ℕ × W
  reply (r, w) = (if failed r then resp_error else resp_ok, w)

  abbrev shell : String → List String
  shell script = "/bin/sh" ∷ "-c" ∷ script ∷ []

  unfoldable pub handle_request : ℕ → ℕ → W → ℕ × W
  handle_request itercnt req w =
      if req == req_pre_dump
      then reply (execute_pod x p.target none attached (shell (pre_dump_script p itercnt)) w)
      else if req == req_dump
      then reply (execute_pod x p.target none attached (shell (dump_script p itercnt)) w)
      else (resp_error, w)

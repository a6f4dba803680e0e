-- ===== src/Lm/Restore.antt =====
-- `LM_Restore` of server/lm.go: the destination host's side of a migration. Log output, time
-- measurement and deadlines are not modelled.
pub mod Resumes
pub mod Steady
pub mod Crash
pub mod Wait
use Prim.Native.String.{◌++◌}
use container_cloudlet.Common.{
  ℕ, zero, suc, String, ◌≡◌, refl, Bool, true, false, not, Option, none, some, List, [], ◌∷◌,
  ◌++◌ as append, ℤ, pos, negsuc, is_pos, is_neg, show_nat, if◌then◌else◌, ◌==◌, nat_eq, string_eq,
}
use container_cloudlet.Go.{
  GoError, Result, ok, fail, panic, new_error, eof, of_error, Try, return, modify, lift, answer,
  call, finally, zoom, ◌>>=◌, ◌>>◌,
}
use container_cloudlet.Io.{ReadResult, readline}
use container_cloudlet.Types.{Request, RequestDumpStart, Response, Deploy, Json}
use container_cloudlet.KubeExec.{Container, Executor, Stdout, attached, execute_pod, write_pod_file}
use container_cloudlet.KubePortFwd.{PortForwardEnv, open_kube_port_forward_ready}
use container_cloudlet.FwdSvc.{
  ForwarderService, Entry, TcpAddr, request_suspend, resume, close_all_forwarders,
  change_server_addr, change_data_rate,
}
use container_cloudlet.Lm.Messages.{
  Conn, readline_conn, no_deploy, read_reply, send_dump_service_request, pre_dumps,
}
use container_cloudlet.Lm.{
  host_msg_port, host_data_port, host_resume_sig_port, pod_rsync_port, dump_images_dir,
  post_resume_script_path, req_pre_dump, req_dump, resp_ok,
}

-- What `exec` uses of the outside, over a world `W`. `settled` is what other goroutines have made of
-- the forwarders when a wait of the service returns.
pub record RestoreEnv (W : Type 0) : Type 0 where
  pub json : Json
  pub exec : Executor W
  pub forward : PortForwardEnv W
  pub close_forward : W → W
  pub listen : String → W → Option GoError × W
  pub close_listener : W → W
  pub dial : String → W → (Option GoError × Conn W) × W
  pub settled : List Entry → W → List Entry
  -- what the polling of the resume signal and of the timer makes of the world; as steps it is in
  -- Lm.Restore.Wait
  pub wait_for_resume : W → W

pub record Restore : Type 0 where
  pub config_host : String
  pub this_addr : String
  pub target : Container
  pub src_addr : String
  pub src_api_server_addr : String
  pub src_name : String
  pub dst_pod_addr : TcpAddr
  pub bw_limit : ℤ
  pub iteration : ℤ

-- The world, and the service behind the pointer `Fwdsvc`.
pub record Session (W : Type 0) : Type 0 where
  pub world : W
  pub fwdsvc : Option ForwarderService

abbrev pub put_world : {W : Type 0} → Session W → W → Session W
put_world s w = record s { world = w }

-- Code that changes the world alone.
abbrev pub in_world : {W A : Type 0} → Try W A → Try (Session W) A
in_world = zoom (λ s. s.world) put_world

-- How many pre-dumps are asked for.
unfoldable pub iterations : ℤ → ℕ
iterations (pos zero) = 1
iterations (pos (suc n)) = suc n
iterations (negsuc n) = 0

unfoldable pub post_resume_script : Restore → String
unfolding show_nat
post_resume_script p =
    "#!/bin/sh\nif test \"$CRTOOLS_SCRIPT_ACTION\" = \"post-resume\"; then echo Send resume signal; nc -vz "
    ++ p.this_addr
    ++ " "
    ++ show_nat host_resume_sig_port
    ++ "; fi\n"

unfoldable pub restore_script : String
restore_script =
    "unshare -p -m --fork --mount-proc criu restore --images-dir " ++ dump_images_dir
    ++ "/final --shell-job --tcp-close " ++ "--action-script " ++ post_resume_script_path ++ " &"

abbrev pub service_result :
    {W : Type 0} → Session W → Result ForwarderService → Result (Unit {0}) × Session W
service_result s (ok q) = (ok tt, record s { fwdsvc = some q })
service_result s (fail e) = (fail e, s)
service_result s (panic m) = (panic m, s)

abbrev pub on_pointer :
    {W : Type 0}
    → (ForwarderService → Result ForwarderService)
    → Session W
    → Option ForwarderService
    → Result (Unit {0}) × Session W
on_pointer f s none = (panic "nil pointer dereference", s)
on_pointer f s (some q) = service_result s (f q)

-- A method of the service, on a pointer that may be nil.
unfoldable pub on_service :
    {W : Type 0} → (ForwarderService → Result ForwarderService) → Try (Session W) (Unit {0})
on_service f s = on_pointer f s s.fwdsvc

unfoldable pub dump_start_request : Restore → Request
dump_start_request p = record {
  method = "_dumpStart";
  deploy = no_deploy;
  remove_name = "";
  dump_start = record { name = p.src_name; dst_addr = p.this_addr; bw_limit = p.bw_limit };
}

module _ {W : Type 0} (env : RestoreEnv W) (p : Restore) where
  unfoldable pub send_dump_start_request : Try W Response
  unfolding dump_start_request readline_conn
  send_dump_start_request = do
    breq ← lift (
        of_error (env.json.marshal_request (dump_start_request p)).1
          (env.json.marshal_request (dump_start_request p)).0)
    conn ← answer (env.dial p.src_api_server_addr)
    finally
        (do
          call (conn.write (append breq (b'\n' ∷ [])))
          bresp ← readline_conn conn
          lift (
              of_error (env.json.unmarshal_response bresp).1 (env.json.unmarshal_response bresp).0))
        conn.close

  abbrev wait_settled : ForwarderService → W → ForwarderService
  wait_settled q w = record q { fwdrs = env.settled q.fwdrs w }

  unfoldable pub suspend_service : Try (Session W) (Unit {0})
  suspend_service s = on_service (λ q. ok (wait_settled (request_suspend q) s.world)) s

  abbrev settle_result : Result ForwarderService → W → Result ForwarderService
  settle_result (ok q) w = ok (wait_settled q w)
  settle_result (fail e) w = fail e
  settle_result (panic m) w = panic m

  unfoldable pub close_forwarders : Try (Session W) (Unit {0})
  close_forwarders s = on_service (λ q. settle_result (close_all_forwarders q) s.world) s

  abbrev pub resume_service : Session W → Session W
  resume_service s = elim s.fwdsvc [ none ↦ s | some q ↦ record s { fwdsvc = some (resume q) } ]

  -- The final dump, the restore in a goroutine whose error is only logged, and the wait.
  unfoldable pub dump_and_restore : Conn W → Try W (Unit {0})
  dump_and_restore conn = do
    send_dump_service_request conn req_dump
    modify (λ w.
        (execute_pod env.exec p.target none attached ("/bin/sh" ∷ "-c" ∷ restore_script ∷ []) w).1)
    modify env.wait_for_resume

  -- From the end of the pre-dumps, with and without a forwarding service.
  unfoldable pub switch_over : Bool → Conn W → Try (Session W) (Unit {0})
  unfolding suspend_service close_forwarders
  switch_over false conn = in_world (dump_and_restore conn)
  switch_over true conn = do
    suspend_service
    finally
        (do
          close_forwarders
          in_world (dump_and_restore conn)
          on_service (λ q. change_server_addr q p.dst_pod_addr)
          on_service (λ q. change_data_rate q (pos 0)))
        resume_service

  unfoldable pub migrate : Bool → Conn W → Try (Session W) (Unit {0})
  migrate with_fwd conn =
      finally
        (do
          in_world (
              open_kube_port_forward_ready env.forward p.config_host p.target.namespace
                p.target.pod_name host_data_port pod_rsync_port)
          in_world (pre_dumps conn (iterations p.iteration))
          switch_over with_fwd conn)
        (λ s. put_world s (env.close_forward s.world))

  abbrev check_response : Response → Result (Unit {0})
  check_response r =
      if not r.succeeded then fail (new_error ("DumpStart response error: " ++ r.msg)) else ok tt

  unfoldable pub restore : Bool → Try (Session W) (Unit {0})
  restore with_fwd = do
    in_world (write_pod_file env.exec p.target post_resume_script_path (post_resume_script p) "755")
    in_world
        (execute_pod env.exec p.target none attached ("/bin/sh" ∷ "-c" ∷ "rsync --daemon" ∷ []))
    resp ← in_world send_dump_start_request
    lift (check_response resp)
    conn ← in_world (answer (env.dial (p.src_addr ++ ":" ++ show_nat host_msg_port)))
    finally (migrate with_fwd conn) (λ s. put_world s (conn.close s.world))

  -- `exec`
  unfoldable pub exec : Bool → Try (Session W) (Unit {0})
  exec with_fwd = do
    in_world (call (env.listen (":" ++ show_nat host_resume_sig_port)))
    finally (restore with_fwd) (λ s. put_world s (env.close_listener s.world))

  -- `ExecLM` and `ExecFwdLM`
  abbrev pub exec_lm : Try (Session W) (Unit {0})
  exec_lm = exec false

  abbrev pub exec_fwd_lm : Try (Session W) (Unit {0})
  exec_fwd_lm = exec true

-- ===== src/Examples/Migrations.antt =====
-- Runs of both sides of a migration (server/lm.go).
use container_cloudlet.Common.{◌≡◌, refl, String, true, not, Option, none, some, List, [], ◌∷◌, pos}
use container_cloudlet.Go.{GoError, failed, ok, eof, ◌>>=◌}
use container_cloudlet.Go.Ensures.{Holds}
use container_cloudlet.Lm.Dump.{Service}
use container_cloudlet.Lm.Dump.Start.{
  Host, start, start_listening, start_tunnel, open_ssh_tunnel, get_main_pid, idle,
}
use container_cloudlet.Lm.{req_pre_dump, req_dump}
use container_cloudlet.Ssh.{new_ssh_client, open_tunnel}
use container_cloudlet.KubeExec.{read_pod_file, execute_pod}
use container_cloudlet.Strconv.{atoi, digits_value}
use container_cloudlet.Lm.Dump.Serve.{Round, byte}
use container_cloudlet.Lm.Dump.Connection.{connected, goroutine}
use container_cloudlet.Lm.Dump.Ended.{EndedIf, started-EndedIf}
use container_cloudlet.Lm.Dump.Release.{Outcome, start-Outcome}
use container_cloudlet.Lm.Restore.{exec}
use container_cloudlet.Lm.Restore.Resumes.{Switched, exec-Switched}
use container_cloudlet.Lm.Restore.Crash.{Crashes, exec-Crashes}
use container_cloudlet.Lm.Restore.Wait.{Wait, reads, fired, polls, MustReturn, fired-MustReturn}
use container_cloudlet.Lm.Migration.{Link, dumps, plan, run_until_failure, dumps-plan}
use container_cloudlet.Examples.Worlds.{
  World, host_conf, dump_env, dump_service, restore, restore_env, container, local_addr, pod_addr,
  service, session,
}

start-Outcome_example :
    Holds (Outcome dump_service) (start dump_env host_conf dump_service (idle none))
start-Outcome_example = start-Outcome dump_env host_conf dump_service none

abbrev loop : Service
loop = record { target = container; this_addr = "192.168.0.1"; bw_limit = pos 100; pid = pos 42 }

exec-Switched_example :
    Holds
      (Switched pod_addr local_addr (pos 10))
      (exec restore_env restore true (session (some service)))
exec-Switched_example =
    exec-Switched restore_env restore local_addr (pos 10) (session (some service))
      (service, refl, refl, refl, refl)

-- Every command succeeds.
abbrev verdict : List String → Option GoError
verdict c = none

abbrev first : Link
first = record { itercnt = 1; pending = none; ran = [] }

dumps-plan_example :
    ((dumps loop verdict 2 first).1.ran
      ≡ (run_until_failure loop verdict (plan loop verdict 1 2)).0)
    × (failed (dumps loop verdict 2 first).0
        ≡ not (run_until_failure loop verdict (plan loop verdict 1 2)).1)
dumps-plan_example = dumps-plan loop verdict 2

-- The service of a process 42, begun on a host where nothing was open.
abbrev begun : Host World
begun = (start dump_env host_conf dump_service (idle none)).1

begun-serving :
    (start dump_env host_conf dump_service (idle none) ≡ (ok tt, begun))
    × (begun.serving ≡ some loop)
unfolding start start_listening start_tunnel new_ssh_client open_tunnel get_main_pid read_pod_file
    execute_pod atoi open_ssh_tunnel ◌>>=◌ digits_value
begun-serving = (refl, refl)

-- A pre-dump, and a reply to the final dump that cannot be written.
abbrev broken : List Round
broken =
    (record { incoming = byte req_pre_dump; write_error = none })
    ∷ (record { incoming = byte req_dump; write_error = some eof })
    ∷ []

started-EndedIf_example :
    EndedIf dump_env host_conf dump_service true
      (goroutine dump_env host_conf dump_service (connected broken) loop begun)
started-EndedIf_example =
    started-EndedIf dump_env host_conf dump_service none begun loop (connected broken)
      begun-serving.0 begun-serving.1

-- The timer goes off while a client of the resume listener is read from.
abbrev read_from : Wait
read_from = record { signal = reads; timer = fired; loop = polls }

fired-MustReturn_example : MustReturn read_from
fired-MustReturn_example = fired-MustReturn read_from refl refl

exec-Crashes_example : Holds Crashes (exec restore_env restore true (session none))
exec-Crashes_example = exec-Crashes restore_env restore (session none) refl

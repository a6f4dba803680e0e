-- ===== src/Lib.antt =====
-- A model of the container cloudlet's host server, and theorems about it. The server (Go, in server/)
-- deploys applications as pods, forwards client connections to them, and migrates running containers
-- between hosts.
--
-- The parts, with the files of the repository:
--   ApiServer (server/api-server.go) reads one request from a connection, dispatches it and responds;
--     ApiServer.Accept has the accept loop and the goroutine that closes its listener as steps, and
--     ApiServer.Connections what connections do to the state of the core.
--   ApiCore (server/api-core.go) keeps one entry for each application name; ApiCore.Handlers has
--     deploy, which runs deploy_new, deploy_fwd, deploy_lm or deploy_fwd_lm, and migrate_fwd, the
--     goroutine of the last; ApiCore.DumpStart has dump_start and ApiCore.Remove remove, all with their
--     log lines. A handler holds its entry's mutex from start to end, so it is a function of the state;
--     its early returns are errors that end the code and are logged.
--     ApiCore.Threads has all goroutines of the file at the same time as steps, with the services behind
--     addresses, and with what a handler does to its entry as its only effect.
--   FwdSvc (server/fwdsvc.go) is the forwarding service of one application. FwdSvc.System runs its
--     listener, its forwarders and the controller of a migration as steps, each under one lock or
--     between two blocking calls.
--   Forwarder (server/fwd.go) is one client's connection. Forwarder.Stream has the two copy loops over
--     what sockets yield, Forwarder.Lifecycle the order of events of one forwarder, and Forwarder.Dial
--     dialTCP and Accept as the code runs them.
--   Lm (server/lm.go) is live migration: Lm.Restore is the destination host (LM_Restore) with its
--     messages in Lm.Messages and its wait for the resume signal as steps in Lm.Restore.Wait; Lm.Dump is
--     the source host (LM_DumpService) with its start in Lm.Dump.Start and its goroutine in Lm.Dump.Serve
--     and Lm.Dump.Connection; Lm.Migration connects them.
--   Kube, KubeExec, KubePortFwd (server/kube.go, server/kube-exec.go, server/kube-portfwd.go) and Ssh
--     (server/ssh.go) are what these use of clusters and tunnels; Ssh.Routes has the goroutines of an
--     open tunnel as steps.
--   Main (server/main.go) is the program: Main.Setup is main up to the start of the API server, with the
--     configuration of HostConf (server/hostconf.go) and the addresses of IfaceAddr
--     (server/ifaceaddr.go); Main.Args is argsToMap and Main.TunnelCmd the tunnel command; Main.Run is
--     main from there to its end, together with the accept loop and with Main.Signals, the wait for a
--     signal, as steps.
--   BufferQueue (server/bufque.go), Io (server/io.go), Types (server/types.go), Logger
--     (server/logger.go), Protocol (server/protocol.go) and Go (server/errors.go, and Go's errors and
--     results) are the rest; Strconv is the function of that package that lm.go calls.
--   Common has what all share; Go.Ensures the rules for conditions before and after code that may fail;
--   Examples the runs on concrete inputs.
--
-- Code that may fail is a function from a state to a result and a state; a result is a value, an error
-- or a panic. `defer` is `finally`, or `on_error` where it tests the error. An `int` is an integer, with
-- the wrap-around to 32 bits, and that of the bandwidth product, written out; counters that start at 0
-- and count events are natural numbers. Loops over inputs recurse on the list of what the sockets yield,
-- so they end where the list does, which stands for waiting. Fuel is used twice: for the decimal digits
-- of a number, one more than the number, and for the rounds of the command line.
--
-- Parameters, over a world of any type: client-go and the cluster, sockets, SSH, files, encoding/json,
-- YAML, floating point, and what other goroutines do during a wait. Not modelled: time, deadlines and
-- sleeps other than those of the rate limit, stack traces, log output outside the API core and the API
-- server, what handlers that run at the same time do to the world, the old code in server/old, which is
-- commented out, and the Java programs.
pub mod ApiCore
pub mod ApiServer
pub mod BufferQueue
pub mod Common
pub mod Examples
pub mod Forwarder
pub mod FwdSvc
pub mod Go
pub mod HostConf
pub mod IfaceAddr
pub mod Io
pub mod Kube
pub mod KubeExec
pub mod KubePortFwd
pub mod Lm
pub mod Logger
pub mod Main
pub mod Protocol
pub mod Ssh
pub mod Strconv
pub mod Types

-- ===== src/Examples/Worlds.antt =====
-- A small world for the runs: a cluster with room for one service, a container whose commands all
-- succeed, a network where every call succeeds, and records for requests, services and sessions.
use container_cloudlet.Common.{
  String, refl, true, false, List, Option, none, some, [], ◌∷◌, pos, if◌then◌else◌, ◌==◌, string_eq,
  arith, str_iff,
}
use container_cloudlet.Go.{GoError, new_error}
use container_cloudlet.KubeExec.{Container, Executor}
use container_cloudlet.Kube.{Cluster, Service, running}
use container_cloudlet.KubePortFwd.{ready}
use container_cloudlet.HostConf.{HostConf}
use container_cloudlet.Ssh.{SshEnv}
use container_cloudlet.Types.{Json, Deploy}
use container_cloudlet.FwdSvc.{ForwarderService, TcpAddr}
use container_cloudlet.Lm.Dump.Start.{DumpEnv, DumpService}
use container_cloudlet.Lm.Messages.{Conn, no_deploy}
use container_cloudlet.Lm.Restore.{RestoreEnv, Restore, Session, dump_start_request}
use container_cloudlet.ApiCore.{ApiCore, ApiEnv, new_api_core}
use container_cloudlet.ApiCore.Address.{KeepsServices}
use container_cloudlet.ApiServer.{ServerEnv}
use container_cloudlet.IfaceAddr.{Ip, Interface, ip_net}

-- The service that the cluster holds.
abbrev pub World : Type 0
World = Option Service

abbrev pub local_addr : TcpAddr
local_addr = record { ip = ""; port = 8080 }

abbrev pub pod_addr : TcpAddr
pod_addr = record { ip = "10.0.0.1"; port = 80 }

abbrev no_service : Service
no_service = record {
  kind = "";
  api_version = "";
  name = "";
  labels = [];
  service_type = "";
  port_name = "";
  protocol = "";
  port = pos 0;
  selector = [];
  cluster_ip = "";
}

abbrev missing : GoError
missing = record (new_error "not found") { not_found = true }

abbrev found : String → World → Option GoError × Service
found name none = (some missing, no_service)
found name (some s) = if s.name == name then (none, s) else (some missing, no_service)

abbrev with_ip : Service → Service
with_ip s = record s { cluster_ip = "10.0.0.1" }

abbrev pub cluster : Cluster World
cluster = record {
  build_config = λ w. (none, w);
  new_for_config = λ w. (none, w);
  create_pod = λ pod w. ((none, pod), w);
  get_pod_phase = λ name w. ((none, running), w);
  delete_pod = λ name w. (none, w);
  create_service = λ s w. ((none, with_ip s), some (with_ip s));
  get_service = λ name w. (found name w, w);
  delete_service = λ name w. (none, none);
  poll_immediate = λ interval timeout cond w. (none, w);
}

pub keeps_services : KeepsServices cluster
keeps_services = record {
  read = λ name w. refl;
  created = λ s w h. ground (arith, str_iff s.name s.name);
}

abbrev pub container : Container
container = record { namespace = "default"; pod_name = "app-pod"; container_name = "app-c" }

abbrev pub executor : Executor World
executor = record { new_spdy_executor = λ o w. (none, w); stream = λ o w. ((none, "42"), w) }

abbrev pub host_conf : HostConf
host_conf = record {
  host_network_interface = "eth0";
  ssh_local_server_addr = "localhost:22";
  ssh_user = "user";
  ssh_key_path = "/key";
}

abbrev ssh_env : SshEnv World (Unit {0})
ssh_env = record {
  read_file = λ path w. ((none, []), w);
  parse_private_key = λ key. (none, tt);
  dial = λ addr config w. (none, w);
  listen = λ addr w. (none, w);
}

abbrev pub dump_env : DumpEnv World (Unit {0})
dump_env = record {
  ssh = ssh_env;
  exec = executor;
  resolve_tcp_addr = λ addr w. (none, w);
  listen_tcp = λ addr w. (none, w);
}

abbrev pub dump_service : DumpService
dump_service = record {
  target = container;
  this_addr = "192.168.0.1";
  dst_addr = "192.168.0.2";
  bw_limit = pos 100;
}

abbrev pub restore : Restore
restore = record {
  config_host = "https://10.1.1.1";
  this_addr = "192.168.0.2";
  target = container;
  src_addr = "192.168.0.1";
  src_api_server_addr = "192.168.0.1:9999";
  src_name = "app";
  dst_pod_addr = pod_addr;
  bw_limit = pos 100;
  iteration = pos 2;
}

abbrev pub json : Json
json = record {
  marshal_request = λ r. (none, []);
  unmarshal_request = λ b. (none, dump_start_request restore);
  marshal_response = λ r. (none, []);
  unmarshal_response = λ b. (none, record { succeeded = true; msg = "" });
}

abbrev pub conn : Conn World
conn = record {
  write = λ b w. (none, w);
  read_byte = λ w. ((some 0, none), w);
  reads = λ w. ((record { bytes = b'x' ∷ b'\n' ∷ []; error = none }) ∷ [], w);
  close = λ w. w;
}

abbrev pub restore_env : RestoreEnv World
restore_env = record {
  json = json;
  exec = executor;
  forward = record {
    round_tripper = λ w. (none, w);
    new_on_addresses = λ r w. (none, w);
    forward_ports = λ r w. (ready, w);
  };
  close_forward = λ w. w;
  listen = λ addr w. (none, w);
  close_listener = λ w. w;
  dial = λ addr w. ((none, conn), w);
  settled = λ es w. [];
  wait_for_resume = λ w. w;
}

abbrev pub service : ForwarderService
service = record {
  network = "tcp";
  client_addr = local_addr;
  server_addr = local_addr;
  is_ext_host = true;
  fwdrs = [];
  is_suspended = false;
  chan_suspend = 0;
  chan_close = false;
  data_rate = pos 10;
}

abbrev pub session : Option ForwarderService → Session World
session o = record { world = none; fwdsvc = o }

abbrev pub api_env : ApiEnv World (Unit {0})
api_env = record {
  cluster = cluster;
  config_host = "https://10.1.1.1";
  resolve_tcp_addr = λ addr w. ((none, local_addr), w);
  listen_tcp = λ network addr w. (none, w);
  restore = restore_env;
  dump = dump_env;
}

abbrev pub server_env : ServerEnv World (Unit {0})
server_env = record { api = api_env; json = json; text = λ b. "" }

abbrev pub deploy_app : Deploy
deploy_app = record no_deploy { name = "app"; deploy_type = "new" }

abbrev pub core : ApiCore World
core = new_api_core host_conf "192.168.0.1" "" none

abbrev pub address : Ip
address = record { to4 = some "192.168.0.1"; is_loopback = false; shown = "192.168.0.1" }

abbrev pub interfaces : List Interface
interfaces =
    (record { name = "lo"; addrs = (none, []) })
    ∷ (record { name = "eth0"; addrs = (none, ip_net none ∷ ip_net (some address) ∷ []) })
    ∷ []

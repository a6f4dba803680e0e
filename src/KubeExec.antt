-- ===== src/KubeExec.antt =====
-- server/kube-exec.go: commands in a container. The client library's executor is a parameter.
use container_cloudlet.Common.{
  String, Bool, true, false, Option, none, some, List, [], ◌∷◌, if◌then◌else◌, ◌==◌, string_eq, not,
}
use Prim.Native.String.{◌++◌}
use container_cloudlet.Go.{GoError, Result, fail, of_error, Try, return, ◌>>◌}

pub record Container : Type 0 where
  pub namespace : String
  pub pod_name : String
  pub container_name : String

-- `apiv1.PodExecOptions` with what the executor is given as the command's input.
pub record ExecOptions : Type 0 where
  pub target : Container
  pub command : List String
  pub attach_stdin : Bool
  pub attach_stdout : Bool
  pub attach_stderr : Bool
  pub tty : Bool
  pub input : Option String

-- k8s.io/client-go/tools/remotecommand over a cluster in state `W`: an executor for the request, and
-- the run of it, which yields what the command wrote to an attached standard output.
pub record Executor (W : Type 0) : Type 0 where
  pub new_spdy_executor : ExecOptions → W → Option GoError × W
  pub stream : ExecOptions → W → (Option GoError × String) × W

-- Whether a standard output is given (`os.Stdout`, a buffer) or nil.
pub data Stdout : Type 0 where
  nil attached : Stdout

abbrev is_attached : Stdout → Bool
is_attached nil = false
is_attached attached = true

abbrev is_given : Option String → Bool
is_given none = false
is_given (some s) = true

abbrev pub run_options : Container → Option String → Stdout → List String → ExecOptions
run_options c stdin stdout commands = record {
  target = c;
  command = commands;
  attach_stdin = is_given stdin;
  attach_stdout = is_attached stdout;
  attach_stderr = true;
  tty = false;
  input = stdin;
}

module _ {W : Type 0} (x : Executor W) where
  abbrev streamed : (Option GoError × String) × W → Result String × W
  streamed ((e, out), w) = (of_error out e, w)

  abbrev opened : ExecOptions → Option GoError × W → Result String × W
  opened o (none, w) = streamed (x.stream o w)
  opened o (some e, w) = (fail e, w)

  -- `ExecutePod`; every caller in the server gives a standard error. The result is what the command
  -- wrote to its output.
  unfoldable pub execute_pod : Container → Option String → Stdout → List String → Try W String
  execute_pod c stdin stdout commands w =
      let o = run_options c stdin stdout commands in opened o (x.new_spdy_executor o w)

  unfoldable pub get_pod_env : Container → String → Try W String
  get_pod_env c env =
      execute_pod c none attached ("/bin/sh" ∷ "-c" ∷ ("echo ${" ++ env ++ "}") ∷ [])

  unfoldable pub set_pod_env : Container → String → String → Try W (Unit {0})
  set_pod_env c env value = do
    execute_pod c none nil ("/bin/sh" ∷ "-c" ∷ ("export " ++ env ++ "=" ++ value) ∷ [])
    return tt

  unfoldable pub read_pod_file : Container → String → Try W String
  read_pod_file c path = execute_pod c none attached ("/bin/sh" ∷ "-c" ∷ ("cat " ++ path) ∷ [])

  abbrev pub chmod_option : String → String → String
  chmod_option permission path =
      if not (permission == "") then "&& chmod " ++ permission ++ " " ++ path else ""

  unfoldable pub write_pod_file : Container → String → String → String → Try W (Unit {0})
  write_pod_file c path content permission = do
    execute_pod c (some content) nil
        ("/bin/sh" ∷ "-c" ∷ ("cat > " ++ path ++ " " ++ chmod_option permission path) ∷ [])
    return tt

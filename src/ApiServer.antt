-- ===== src/ApiServer.antt =====
-- server/api-server.go: one accepted connection. The read deadline is not modelled. The accept loop is
-- in ApiServer.Accept.
pub mod Dispatch
pub mod Accept
pub mod Serving
pub mod Stopping
pub mod Connections
use Prim.Native.String.{◌++◌}
use container_cloudlet.Common.{
  ℕ, String, Bool, true, false, Option, none, some, List, if◌then◌else◌, ◌==◌, string_eq,
}
use container_cloudlet.Go.{
  GoError, Result, ok, fail, panic, Try, return, modify, lift, of_error, call, finally, ◌>>=◌, ◌>>◌,
}
use container_cloudlet.Logger.{info, error}
use container_cloudlet.Types.{Request, Response, Json}
use container_cloudlet.Lm.Messages.{Conn, readline_conn}
use container_cloudlet.ApiCore.{ApiCore, ApiEnv, put_world, in_world, say, logged}
use container_cloudlet.ApiCore.Handlers.{deploy}
use container_cloudlet.ApiCore.DumpStart.{dump_start}
use container_cloudlet.ApiCore.Remove.{remove}

-- `string(b)`, which is the identity on bytes, is `text`.
pub record ServerEnv (W Signer : Type 0) : Type 0 where
  pub api : ApiEnv W Signer
  pub json : Json
  pub text : List ℕ → String

module _ {W Signer : Type 0} (env : ServerEnv W Signer) where
  -- `doDeployReq`, `doRemoveReq`, `doDumpStartReq` and `doUnsupportedReq`, with the response if any
  unfoldable pub do_deploy_req : Request → Try (ApiCore W) (Option Response)
  unfolding deploy
  do_deploy_req req = do deploy env.api req.deploy; return none

  unfoldable pub do_remove_req : Request → Try (ApiCore W) (Option Response)
  unfolding remove
  do_remove_req req = do remove env.api req.remove_name; return none

  unfoldable pub do_dump_start_req : Request → Try (ApiCore W) (Option Response)
  unfolding dump_start
  do_dump_start_req req = do resp ← dump_start env.api req.dump_start; return (some resp)

  unfoldable pub do_unsupported_req : Request → Try (ApiCore W) (Option Response)
  do_unsupported_req req = do
    modify (say error ("Unsupported request method: " ++ req.method))
    return none

  -- The switch over the method
  unfoldable pub dispatch : Request → Try (ApiCore W) (Option Response)
  unfolding do_deploy_req do_remove_req do_dump_start_req do_unsupported_req
  dispatch req =
      if req.method == "deploy"
      then do_deploy_req req
      else if req.method == "remove"
      then do_remove_req req
      else if req.method == "_dumpStart"
      then do_dump_start_req req
      else do_unsupported_req req

  abbrev pub send : Conn W → Option Response → Try (ApiCore W) (Unit {0})
  send conn none = return tt
  send conn (some resp) = do
    b ← lift (of_error (env.json.marshal_response resp).1 (env.json.marshal_response resp).0)
    in_world (call (conn.write b))

  -- From `Readline` on; every error is logged and ends it.
  unfoldable pub serve_request : Conn W → Try (ApiCore W) (Unit {0})
  unfolding readline_conn dispatch logged
  serve_request conn = logged (do
    b ← in_world (readline_conn conn)
    modify (say info ("Request: " ++ env.text b))
    req ← lift (of_error (env.json.unmarshal_request b).1 (env.json.unmarshal_request b).0)
    resp ← dispatch req
    send conn resp)

  -- `handleConnection`, from a client at `remote_addr`
  unfoldable pub handle_connection : String → Conn W → Try (ApiCore W) (Unit {0})
  unfolding serve_request
  handle_connection remote_addr conn =
      finally (do modify (say info ("Accept: " ++ remote_addr ++ "\n")); serve_request conn)
        (λ s. put_world (say info ("Close: " ++ remote_addr ++ "\n") s) (conn.close s.world))

-- ===== src/ApiServer/Connections.antt =====
-- What connections to server/api-server.go do to the resources that server/api-core.go keeps, whatever
-- the clients send.
use container_cloudlet.Common.{
  String, ◌≡◌, refl, Bool, true, false, Option, none, some, arith, insert, lookup, string_eq,
  if◌then◌else◌,
}
use container_cloudlet.Go.{Result, ok, fail, panic, Try}
use container_cloudlet.Go.Ensures.{
  Holds, Ensures-finally, Ensures-lift, Ensures-return, Ensures-whole,
}
use container_cloudlet.FwdSvc.{ForwarderService}
use container_cloudlet.HostConf.{HostConf}
use container_cloudlet.Types.{Request, Response, Deploy}
use container_cloudlet.Lm.Messages.{Conn}
use container_cloudlet.ApiCore.{ApiCore, stored, fwdsvc_of, new_api_core}
use container_cloudlet.ApiCore.Handlers.{migrate_fwd}
use container_cloudlet.ApiCore.Remove.{remove}
use container_cloudlet.ApiCore.Entries.{
  Entries, Kept, Keeps, in_world-Keeps, logged-Keeps, then-Keeps, call-Returns,
}
use container_cloudlet.ApiCore.Frame.{say-Keeps, deploy-Keeps, remove-Keeps, dump_start-Keeps}
use container_cloudlet.ApiCore.Opened.{AllOpen, AllOpen-none, AllOpen-some, migrate_fwd-AllOpen}
use container_cloudlet.ApiCore.Removed.{migrate_fwd-Cleared}
use container_cloudlet.ApiCore.Cleared.{Cleared, remove-Cleared_open}
use container_cloudlet.ApiServer.{
  ServerEnv, do_deploy_req, do_remove_req, do_dump_start_req, do_unsupported_req, dispatch, send,
  serve_request, handle_connection,
}

module _ {W Signer : Type 0} (env : ServerEnv W Signer) where
  -- A property of the entries that allows new ones under any name, and to drop a service.
  module _ (R : Entries → Type 0)
      (none_kept : (name : String) (m : Entries)
        → lookup name m ≡ none
        → R m
        → R (insert name (record { fwdsvc = none }) m))
      (new_kept : (name : String) (m : Entries) (q : ForwarderService)
        → stored (lookup name m) ≡ none
        → q.chan_close ≡ false
        → R m
        → R (insert name (record { fwdsvc = some q }) m))
      (dropped : (name : String) (m : Entries) (q : ForwarderService)
        → stored (lookup name m) ≡ some q
        → R m
        → R (insert name (record { fwdsvc = none }) m)) where
    abbrev X : ApiCore W → Type 0
    X s = R s.resmap

    do_deploy_req-Keeps : (req : Request) → Keeps R X (do_deploy_req env req)
    unfolding do_deploy_req
    do_deploy_req-Keeps req =
        let name = req.deploy.name in
        then-Keeps R X
          (deploy-Keeps env.api R X name (none_kept name) (new_kept name) (λ s h. h) req.deploy
            refl)
          λ _. Ensures-return _ λ s h. h

    do_remove_req-Keeps : (req : Request) → Keeps R X (do_remove_req env req)
    unfolding do_remove_req
    do_remove_req-Keeps req =
        let name = req.remove_name in
        then-Keeps R X
          (remove-Keeps env.api R X name (none_kept name) (λ s q h e c. h) (dropped name))
          λ _. Ensures-return _ λ s h. h

    do_dump_start_req-Keeps : (req : Request) → Keeps R X (do_dump_start_req env req)
    unfolding do_dump_start_req
    do_dump_start_req-Keeps req =
        let name = req.dump_start.name in
        then-Keeps R X
          (dump_start-Keeps env.api R X name (none_kept name) (λ s h. h) req.dump_start refl)
          λ _. Ensures-return _ λ s h. h

    do_unsupported_req-Keeps : (req : Request) → Keeps R X (do_unsupported_req env req)
    unfolding do_unsupported_req
    do_unsupported_req-Keeps req =
        then-Keeps R X (say-Keeps env.api R X _ λ s. refl) λ _. Ensures-return _ λ s h. h

    if-Keeps :
        {A : Type 0} (b : Bool) {m n : Try (ApiCore W) A}
        → Keeps R X m
        → Keeps R X n
        → Keeps R X (if b then m else n)
    if-Keeps true h k = h
    if-Keeps false h k = k

    dispatch-Keeps : (req : Request) → Keeps R X (dispatch env req)
    unfolding dispatch
    dispatch-Keeps req = if-Keeps _ (do_deploy_req-Keeps req) (
        if-Keeps _ (do_remove_req-Keeps req)
          (if-Keeps _ (do_dump_start_req-Keeps req) (do_unsupported_req-Keeps req)))

    send-Keeps : (conn : Conn W) (resp : Option Response) → Keeps R X (send env conn resp)
    send-Keeps conn none = Ensures-return _ λ s h. h
    send-Keeps conn (some resp) =
        then-Keeps R X (Ensures-lift _ _ (λ s h x. h) (λ s h. h) (λ s h. h))
          λ b. in_world-Keeps R X (call-Returns _)

    serve_request-Keeps : (conn : Conn W) → Keeps R X (serve_request env conn)
    unfolding serve_request
    serve_request-Keeps conn = logged-Keeps R X (
        then-Keeps R X (Ensures-whole (Kept R X) _ _ _ (λ s h x u. h) (λ s h u. h) (λ s h u. h))
          λ b. then-Keeps R X (say-Keeps env.api R X _ λ s. refl) λ _.
            then-Keeps R X (Ensures-lift _ _ (λ s h x. h) (λ s h. h) (λ s h. h))
              λ req. then-Keeps R X (dispatch-Keeps req) λ resp. send-Keeps conn resp)

    handle_connection-Keeps :
        (remote_addr : String) (conn : Conn W) → Keeps R X (handle_connection env remote_addr conn)
    unfolding handle_connection
    handle_connection-Keeps remote_addr conn =
        Ensures-finally _
          (then-Keeps R X (say-Keeps env.api R X _ λ s. refl) λ _. serve_request-Keeps conn)

  -- The states that connections, and goroutines of `DeployFwdLM` between them, lead to from a new core.
  pub data Served : ApiCore W → Type 0 where
    fresh : (c : HostConf) (host gateway : String) (w : W) → Served (new_api_core c host gateway w)
    connected :
        (remote_addr : String) (conn : Conn W) (s : ApiCore W)
        → Served s
        → Served (handle_connection env remote_addr conn s).1
    migrated : (d : Deploy) (s : ApiCore W) → Served s → Served (migrate_fwd env.api d s).1

  left_kept :
      (R : Entries → Type 0) (r : Result (Unit {0})) (s : ApiCore W)
      → Holds (Kept R (λ t. R t.resmap)) (r, s)
      → R s.resmap
  left_kept R (ok a) s h = h
  left_kept R (fail e) s h = h
  left_kept R (panic m) s h = h

  Served-AllOpen : (s : ApiCore W) → Served s → AllOpen s.resmap
  unfolding lookup new_api_core
  Served-AllOpen _ (fresh c host gateway w) = λ j q e. absurd (ground arith)
  Served-AllOpen _ (connected remote_addr conn s r) = left_kept AllOpen _ _ (
      (handle_connection-Keeps AllOpen (λ name m e. AllOpen-none name m)
          (λ name m q e. AllOpen-some name m q) (λ name m q e. AllOpen-none name m) remote_addr
          conn).at
        s (Served-AllOpen s r))
  Served-AllOpen _ (migrated d s r) =
      left_kept AllOpen _ _ ((migrate_fwd-AllOpen env.api d).at s (Served-AllOpen s r))

  -- In every state that any connections lead to, whatever the clients send and whatever fails while they
  -- are served, with goroutines of `DeployFwdLM` run to their ends at any time between them: a
  -- forwarding service that is kept under some name is not closed.
  pub served-open :
      (s : ApiCore W) (name : String) (q : ForwarderService)
      → Served s
      → fwdsvc_of name s ≡ some q
      → q.chan_close ≡ false
  served-open s name q r e = Served-AllOpen s r name q e

  Cleared-left :
      (name : String) (w : W) (X : ApiCore W → Type 0)
      → ((s : ApiCore W) → X s → Cleared env.api name w s.resmap)
      → (r : Result (Unit {0})) (s : ApiCore W) → Holds (Kept (Cleared env.api name w) X) (r, s)
      → Cleared env.api name w s.resmap
  Cleared-left name w X k (ok a) s h = h
  Cleared-left name w X k (fail e) s h = h
  Cleared-left name w X k (panic m) s h = k s h

  -- `Remove` in every such state does not panic, and when it ends no service is kept for the name any
  -- more, unless no client for the cluster could be made. It stays so when a goroutine of `DeployFwdLM`
  -- for the name runs only then, however that ends.
  pub removed-Cleared :
      (d : Deploy) (s : ApiCore W)
      → Served s
      → let gone = remove env.api d.name s in
        Holds (Kept (Cleared env.api d.name s.world) (λ s'. ⊥)) gone
        × Cleared env.api d.name s.world (migrate_fwd env.api d gone.1).1.resmap
  removed-Cleared d s r =
      let gone = remove env.api d.name s in
      let run = migrate_fwd env.api d gone.1 in
      let h = remove-Cleared_open env.api d.name s (Served-AllOpen s r) in
      let c = Cleared-left d.name s.world (λ s'. ⊥) (λ s' k. absurd k) gone.0 gone.1 h in
      (
        h,
        Cleared-left d.name s.world _ (λ s' k. k) run.0 run.1
            ((migrate_fwd-Cleared env.api d s.world).at gone.1 c),
      )

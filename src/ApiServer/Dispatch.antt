-- ===== src/ApiServer/Dispatch.antt =====
-- What clients of server/api-server.go are answered.
use container_cloudlet.Common.{
  String, ◌≡◌, refl, ap, subst, sym, ◌∙◌, some, ◌==◌, string_eq, if◌then◌else◌,
}
use container_cloudlet.Go.{ok, return, ◌>>=◌}
use container_cloudlet.Types.{Request, RequestDumpStart, Response}
use container_cloudlet.Lm.Restore.{Restore, dump_start_request}
use container_cloudlet.ApiCore.{ApiCore}
use container_cloudlet.ApiCore.DumpStart.{dump_start}
use container_cloudlet.ApiCore.Dumps.{Answered, dump_start-Answered}
use container_cloudlet.ApiServer.{
  ServerEnv, dispatch, do_dump_start_req, do_deploy_req, do_remove_req, do_unsupported_req,
}

dispatched :
    {A : Type 0} (m : String)
    → m ≡ "_dumpStart"
    → (a b c d : A)
    → (if m == "deploy" then a else if m == "remove" then b else if m == "_dumpStart" then c else d)
      ≡ c
dispatched m e a b c d = rw e refl

module _ {W Signer : Type 0} (env : ServerEnv W Signer) where
  responds :
      (req : Request) (s : ApiCore W) (resp : Response)
      → (dump_start env.api req.dump_start s).0 ≡ ok resp
      → do_dump_start_req env req s ≡ (ok (some resp), (dump_start env.api req.dump_start s).1)
  unfolding do_dump_start_req return ◌>>=◌
  responds req s resp e = rw e refl

  dispatch_dump :
      (req : Request) (s : ApiCore W)
      → req.method ≡ "_dumpStart"
      → dispatch env req s ≡ do_dump_start_req env req s
  unfolding dispatch
  dispatch_dump req s m =
      ap (λ f. f s)
        (dispatched req.method m (do_deploy_req env req) (do_remove_req env req)
          (do_dump_start_req env req) (do_unsupported_req env req))

  -- The request that a destination host sends to start a dump is dispatched to `DumpStart` on the source
  -- host and always gets a response: success exactly if a dump service for the application that the
  -- destination named now runs, with the bandwidth limit it asked for and a tunnel to the address that it
  -- gave; otherwise nothing new is left open.
  pub dump_start_request-Answered :
      (p : Restore) (s : ApiCore W)
      → (resp : Response) × ((dispatch env (dump_start_request p) s).0 ≡ ok (some resp))
        × Answered env.api
            (record { name = p.src_name; dst_addr = p.this_addr; bw_limit = p.bw_limit })
            s.host_addr
            s.dumps
            resp
            (dispatch env (dump_start_request p) s).1.dumps
  unfolding dump_start_request
  dump_start_request-Answered p s =
      let r : RequestDumpStart = record {
        name = p.src_name;
        dst_addr = p.this_addr;
        bw_limit = p.bw_limit;
      } in
      let (resp, e, a) = dump_start-Answered env.api r s in
      let d =
        dispatch_dump (dump_start_request p) s refl ∙ responds (dump_start_request p) s resp e in
      (
        resp,
        ap (λ x. x.0) d,
        subst (λ x. Answered env.api r s.host_addr s.dumps resp x.1.dumps) (sym d) a,
      )

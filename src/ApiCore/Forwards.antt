-- ===== src/ApiCore/Forwards.antt =====
-- Where the forwarding service of a deployment with forwarding and migration (server/api-core.go) leads,
-- from `DeployFwdLM` to the end of its goroutine.
use Prim.Native.String.{◌++◌}
use container_cloudlet.Common.{
  String, ◌≡◌, refl, ap, Bool, true, false, Option, none, some, ℤ, pos, to_int32, show_int, arith,
  lookup, lookup-insert, string_eq, str_iff, ◌⊎◌, inr,
}
use container_cloudlet.Go.{GoError, Result, ok, fail, panic, zoom, answer, of_error}
use container_cloudlet.Go.Ensures.{Holds, via, Ensures-bind, Ensures-zoom, on_part, zoom-Holds}
use container_cloudlet.FwdSvc.{ForwarderService, TcpAddr}
use container_cloudlet.Types.{Deploy}
use container_cloudlet.Lm.Restore.{Session, Restore, exec}
use container_cloudlet.Lm.Restore.Resumes.{At, Switched, exec-Switched}
use container_cloudlet.ApiCore.{ApiCore, ApiEnv, stored, fwdsvc_of, set_fwdsvc, put_world}
use container_cloudlet.ApiCore.Handlers.{
  with_service, put_service, migrate_fwd, migrate_fwd_if_new, fwd_restore,
}
use container_cloudlet.ApiCore.Entries.{
  Entries, Kept, Keeps, in_world-Keeps, logged-Keeps, then-Keeps, new_client-Returns, call-Returns,
  create_new_pod-Keeps, create_or_get_cluster_ip-Keeps,
}
use container_cloudlet.ApiCore.Frame.{say-Keeps}

module _ {W Signer : Type 0} (env : ApiEnv W Signer) where
  -- `ResolveTCPAddr` answered this address for a host and a port at some time.
  abbrev pub IsResolved : String → ℤ → TcpAddr → Type 0
  IsResolved host port a =
      (w : W) × ((env.resolve_tcp_addr (host ++ ":" ++ show_int (to_int32 port)) w).0 ≡ (none, a))

  -- The address and the rate that the migration found, or the pod behind some cluster address, without
  -- a limit.
  abbrev pub LeadsTo : Deploy → TcpAddr → ℤ → TcpAddr → ℤ → Type 0
  LeadsTo d a r b q =
      ((b ≡ a) × (q ≡ r)) ⊎ ((ip : String) × IsResolved ip d.fwd_lm.port.in_port b × (q ≡ pos 0))

  -- A service is kept for the name, runs, and leads there.
  abbrev pub Forwards : Deploy → TcpAddr → ℤ → Entries → Type 0
  Forwards d a r m =
      (q : ForwarderService) × (stored (lookup d.name m) ≡ some q)
      × (q.is_suspended ≡ false)
      × LeadsTo d a r q.server_addr q.data_rate

  module _ (d : Deploy) (a : TcpAddr) (r : ℤ) where
    abbrev R : Entries → Type 0
    R = Forwards d a r

    abbrev X : ApiCore W → Type 0
    X s = Forwards d a r s.resmap

    put-Forwards :
        (s : ApiCore W) (t : Session W) (b : TcpAddr) (rate : ℤ)
        → LeadsTo d a r b rate
        → At false b rate t
        → R (put_service d.name s t).resmap
    unfolding set_fwdsvc
    put-Forwards s t b rate l (q, e, f, g, h) =
        let k = lookup-insert d.name d.name (record { fwdsvc = t.fwdsvc }) s.resmap in
        (q, ground (arith, str_iff d.name d.name), f, rw (g, h) l)

    switched-Forwards :
        (s : ApiCore W) (new b : TcpAddr) (rate : ℤ) (x : Result (Unit {0})) (t : Session W)
        → LeadsTo d a r b rate
        → LeadsTo d a r new (pos 0)
        → Holds (Switched new b rate) (x, t)
        → Holds (on_part (put_service d.name s) (Kept R X)) (x, t)
    switched-Forwards s new b rate (ok y) t l n h = put-Forwards s t new (pos 0) n h
    switched-Forwards s new b rate (fail y) t l n h = put-Forwards s t b rate l h
    switched-Forwards s new b rate (panic y) t l n h = put-Forwards s t b rate l h

    with_service-Forwards :
        (p : Restore) (s : ApiCore W)
        → LeadsTo d a r p.dst_pod_addr (pos 0)
        → R s.resmap
        → Holds (Kept R X) (with_service d.name (exec env.restore p true) s)
    unfolding zoom
    with_service-Forwards p s n (q, e, f, l) =
        let start : Session W = record { world = s.world; fwdsvc = fwdsvc_of d.name s } in
        let run = exec env.restore p true start in
        zoom-Holds (Kept R X) (put_service d.name s) run.0 run.1 (
          switched-Forwards s p.dst_pod_addr q.server_addr q.data_rate run.0 run.1 l n
            (exec-Switched env.restore p q.server_addr q.data_rate start (q, e, f, refl, refl)))

    resolved-Forwards :
        (ip : String) (s : ApiCore W) (x : (Option GoError × TcpAddr) × W)
        → env.resolve_tcp_addr (ip ++ ":" ++ show_int (to_int32 d.fwd_lm.port.in_port)) s.world ≡ x
        → R s.resmap
        → Holds
            (on_part
              (put_world s)
              (via (λ b s'. LeadsTo d a r b (pos 0) × R s'.resmap) (Kept {A = Unit {0}} R X)))
            (of_error x.0.1 x.0.0, x.1)
    resolved-Forwards ip s ((none, b), w) e h = (inr (ip, (s.world, ap (λ y. y.0) e), refl), h)
    resolved-Forwards ip s ((some y, b), w) e h = h

    migrate_if_new-Forwards : (b : Bool) (ip : String) → Keeps R X (migrate_fwd_if_new env b d ip)
    unfolding answer
    migrate_if_new-Forwards true ip = then-Keeps R X (in_world-Keeps R X (call-Returns _)) λ _.
        Ensures-bind (λ b s. LeadsTo d a r b (pos 0) × R s.resmap)
          (Ensures-zoom _ _ _ λ s h. resolved-Forwards ip s _ refl h)
          λ b. record { at = λ s (n, h). with_service-Forwards (fwd_restore env d b s) s n h }
    migrate_if_new-Forwards false ip = say-Keeps env R X _ λ s. refl

    -- The goroutine of a deployment with forwarding and migration, where a service is kept for the name
    -- and runs: at its end, whatever failed in it and also if it panics, a service is kept for the name
    -- and runs, and it leads either where it led, at the rate that it had, or to an address that a
    -- cluster address and the port of the new pod were resolved to, without a limit.
    pub migrate_fwd-Forwards :
        (s : ApiCore W) → R s.resmap → Holds (Kept R (λ s'. R s'.resmap)) (migrate_fwd env d s)
    unfolding migrate_fwd
    migrate_fwd-Forwards s h =
        let body = logged-Keeps R X (
          then-Keeps R X (in_world-Keeps R X (new_client-Returns env R X)) λ _.
            then-Keeps R X (create_new_pod-Keeps env R X _ _ _ _ _ _ _ _) λ b.
              then-Keeps R X (create_or_get_cluster_ip-Keeps env R X _ _ _ _)
                λ ip. migrate_if_new-Forwards b ip) in
        body.at s h

-- ===== src/ApiCore/Deployed.antt =====
-- `DeployFwdLM` (server/api-core.go) from its call to the end of its goroutine.
use container_cloudlet.Common.{
  ◌≡◌, refl, true, Option, none, some, ℤ, to_int32, arith, lookup, lookup-insert, string_eq,
  str_iff, inl, inr,
}
use container_cloudlet.Go.{Result, ok, fail, panic, Try, modify}
use container_cloudlet.Go.Ensures.{Holds, via, Ensures, Ensures-bind, Ensures-modify}
use container_cloudlet.FwdSvc.{ForwarderService, TcpAddr}
use container_cloudlet.Types.{Deploy}
use container_cloudlet.ApiCore.{
  ApiCore, ApiEnv, DeployResource, fwdsvc_of, keep, load_or_store, unless_stored, ensure_forwarding,
}
use container_cloudlet.ApiCore.Handlers.{migrate_fwd, deploy_fwd_lm}
use container_cloudlet.ApiCore.Entries.{Kept}
use container_cloudlet.ApiCore.Forwards.{IsResolved, Forwards, migrate_fwd-Forwards}
use container_cloudlet.ApiCore.Sourced.{StartsFor, IsFree, Started, start_forwarding-Started}

module _ {W Signer : Type 0} (env : ApiEnv W Signer) where
  module _ (d : Deploy) where
    keep-None :
        (o : Option DeployResource) (s : ApiCore W)
        → IsFree env d s.resmap
        → IsFree env d (keep s d.name o).resmap
    keep-None none s h =
        let k = lookup-insert d.name d.name (record { fwdsvc = none }) s.resmap in
        ground (arith, str_iff d.name d.name)
    keep-None (some r) s h = h

    load_or_store-None :
        Ensures
          (λ s. IsFree env d s.resmap)
          (modify (load_or_store d.name))
          (via (λ _ s. IsFree env d s.resmap) (StartsFor env d))
    unfolding load_or_store
    load_or_store-None = Ensures-modify _ λ s h. keep-None (lookup d.name s.resmap) s h

    unless_none :
        (o : Option ForwarderService) (m : Try (ApiCore W) (Unit {0})) (s : ApiCore W)
        → o ≡ none
        → Holds (StartsFor env d) (m s)
        → Holds (StartsFor env d) (unless_stored env o m s)
    unless_none none m s e h = h
    unless_none (some q) m s e h = cc

    ensure_forwarding-Started :
        (client_port : ℤ)
        → Ensures
            (λ s. IsFree env d s.resmap)
            (ensure_forwarding env d.name client_port d.fwd_lm.src_addr
              (to_int32 d.fwd_lm.src_port)
              true
              d.fwd_lm.data_rate)
            (StartsFor env d)
    unfolding ensure_forwarding
    ensure_forwarding-Started client_port = record {
      at = λ s h. unless_none _ _ s h ((start_forwarding-Started env d client_port).at s h);
    }

    deploy-Started : Ensures (λ s. IsFree env d s.resmap) (deploy_fwd_lm env d) (StartsFor env d)
    unfolding deploy_fwd_lm
    deploy-Started =
        Ensures-bind (λ _ s. IsFree env d s.resmap) load_or_store-None
          λ _. ensure_forwarding-Started _

    kept_started :
        (r : Result (Unit {0})) (s : ApiCore W)
        → Holds (StartsFor env d) (r, s)
        → Started env d s.resmap
    kept_started (ok x) s h = h
    kept_started (fail e) s h = h
    kept_started (panic m) s h = elim h [ ]

    -- It forwards to the source, or to the restored pod: at the end of the goroutine that starts in `t`.
    abbrev pub EndsForwarding : ApiCore W → Type 0
    EndsForwarding t =
        (a : TcpAddr) × IsResolved env d.fwd_lm.src_addr d.fwd_lm.src_port a
        × Holds
            (Kept (Forwards env d a d.fwd_lm.data_rate)
              (λ u. Forwards env d a d.fwd_lm.data_rate u.resmap))
            (migrate_fwd env d t)

    migrate-EndsForwarding :
        (t : ApiCore W) (q : ForwarderService)
        → Started env d t.resmap
        → fwdsvc_of d.name t ≡ some q
        → EndsForwarding t
    migrate-EndsForwarding t q (inl n) k = cc
    migrate-EndsForwarding t q (inr (p, e, (f, res, rate))) k = (
      p.server_addr,
      res,
      migrate_fwd-Forwards env d p.server_addr d.fwd_lm.data_rate t (p, e, f, inl (refl, rate)),
    )

    -- A deployment with forwarding and migration under a name that had no service, and that has one
    -- when `DeployFwdLM` returns: whatever fails in the goroutine that follows it, at its end a service
    -- is kept for the name and runs, and it leads to the address that the source host and port were
    -- resolved to, at the data rate of the request, or to an address that a cluster address and the port
    -- of the pod were resolved to, without a limit.
    pub deploy_fwd_lm-EndsForwarding :
        (s : ApiCore W) (q : ForwarderService)
        → fwdsvc_of d.name s ≡ none
        → fwdsvc_of d.name (deploy_fwd_lm env d s).1 ≡ some q
        → EndsForwarding (deploy_fwd_lm env d s).1
    deploy_fwd_lm-EndsForwarding s q h k =
        migrate-EndsForwarding (deploy_fwd_lm env d s).1 q
          (kept_started (deploy_fwd_lm env d s).0 (deploy_fwd_lm env d s).1 (deploy-Started.at s h))
          k

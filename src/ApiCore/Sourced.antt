-- ===== src/ApiCore/Sourced.antt =====
-- The forwarding service that `DeployFwdLM` (server/api-core.go) starts.
use Prim.Native.String.{◌++◌}
use container_cloudlet.Common.{
  String, ◌≡◌, refl, true, false, Option, none, some, ℤ, to_int32, show_int, arith, lookup,
  lookup-insert, string_eq, str_iff, ◌⊎◌, inl, inr,
}
use container_cloudlet.Go.{GoError, Result, ok, fail, panic, Try}
use container_cloudlet.Go.Ensures.{
  Post, Holds, via, on_part, Ensures, Ensures-bind, Ensures-zoom, Ensures-answer, Ensures-modify,
  Ensures-return,
}
use container_cloudlet.FwdSvc.{ForwarderService, TcpAddr, start_forwarder_service_dr}
use container_cloudlet.Types.{Deploy}
use container_cloudlet.ApiCore.{
  ApiCore, ApiEnv, stored, set_fwdsvc, put_world, in_world, logged, get_forward_addrs, listened,
  start_forwarding,
}
use container_cloudlet.ApiCore.Entries.{Entries, Kept, logged_result-Holds}
use container_cloudlet.ApiCore.Forwards.{IsResolved}

module _ {W Signer : Type 0} (env : ApiEnv W Signer) where
  abbrev Resolves : String → ℤ → Post W (TcpAddr × TcpAddr)
  Resolves host port = record {
    returned = λ c _. IsResolved env host port c.1;
    errored = λ _. Unit;
    panicked = λ _. ⊥;
  }

  get_forward_addrs-Resolved :
      (client_port port : ℤ) (host : String)
      → Ensures
          (λ w. Unit)
          (get_forward_addrs env client_port host (to_int32 port))
          (Resolves host port)
  unfolding get_forward_addrs
  get_forward_addrs-Resolved client_port port host =
      Ensures-bind (λ _ _. Unit {0}) (Ensures-answer _ (λ w _ e. tt) (λ w _ x e. tt))
        λ c.
          Ensures-bind (λ b _. IsResolved env host port b)
            (Ensures-answer _
              (λ w _ e. (
                w,
                λ i. (e i, (env.resolve_tcp_addr (host ++ ":" ++ show_int (to_int32 port)) w).0.1),
              ))
              (λ w _ x e. tt))
            λ b. Ensures-return _ (λ w h. h)

  module _ (d : Deploy) where
    -- Started for this deployment: it runs, at its rate, and leads to the address that its source and
    -- port were resolved to.
    abbrev pub IsFor : ForwarderService → Type 0
    IsFor q =
        (q.is_suspended ≡ false)
        × IsResolved env d.fwd_lm.src_addr d.fwd_lm.src_port q.server_addr
        × (q.data_rate ≡ d.fwd_lm.data_rate)

    -- No service is kept for the name, or one for this deployment.
    abbrev pub Started : Entries → Type 0
    Started m =
        (stored (lookup d.name m) ≡ none)
        ⊎ ((q : ForwarderService) × (stored (lookup d.name m) ≡ some q) × IsFor q)

    abbrev pub StartsFor : Post (ApiCore W) (Unit {0})
    StartsFor = Kept Started (λ s. ⊥)

    abbrev pub IsFree : Entries → Type 0
    IsFree m = stored (lookup d.name m) ≡ none

    set_fwdsvc-Started :
        (q : ForwarderService) (s : ApiCore W)
        → IsFor q
        → Started (set_fwdsvc d.name (some q) s).resmap
    unfolding set_fwdsvc
    set_fwdsvc-Started q s h =
        let k = lookup-insert d.name d.name (record { fwdsvc = some q }) s.resmap in
        inr (q, ground (arith, str_iff d.name d.name), h)

    abbrev Located : Post (ApiCore W) (TcpAddr × TcpAddr)
    Located =
        via (λ c s. IsResolved env d.fwd_lm.src_addr d.fwd_lm.src_port c.1 × IsFree s.resmap)
          StartsFor

    addrs_step :
        (s : ApiCore W)
        → IsFree s.resmap
        → (r : Result (TcpAddr × TcpAddr)) (w : W)
        → Holds (Resolves d.fwd_lm.src_addr d.fwd_lm.src_port) (r, w)
        → Holds (on_part (put_world s) Located) (r, w)
    addrs_step s h (ok c) w k = (k, h)
    addrs_step s h (fail e) w k = inl h
    addrs_step s h (panic m) w k = k

    addrs-Located :
        (client_port : ℤ)
        → Ensures
            (λ s. IsFree s.resmap)
            (in_world
              (get_forward_addrs env client_port d.fwd_lm.src_addr (to_int32 d.fwd_lm.src_port)))
            Located
    addrs-Located client_port =
        let found = get_forward_addrs-Resolved client_port d.fwd_lm.src_port d.fwd_lm.src_addr in
        Ensures-zoom _ _ _ λ s h. addrs_step s h _ _ (found.at s.world tt)

    listened_step :
        (c : TcpAddr × TcpAddr) (s : ApiCore W)
        → IsResolved env d.fwd_lm.src_addr d.fwd_lm.src_port c.1 × IsFree s.resmap
        → (x : Option GoError × W)
        → Holds
            (on_part (put_world s) (via (λ q s. IsFor q) StartsFor))
            (listened env c.0 c.1 true d.fwd_lm.data_rate x)
    unfolding start_forwarder_service_dr
    listened_step c s h (none, w) = (refl, h.0, refl)
    listened_step c s h (some e, w) = inl h.1

    listened-IsFor :
        (c : TcpAddr × TcpAddr)
        → Ensures
            (λ s. IsResolved env d.fwd_lm.src_addr d.fwd_lm.src_port c.1 × IsFree s.resmap)
            (in_world
              (λ w. listened env c.0 c.1 true d.fwd_lm.data_rate (env.listen_tcp "tcp" c.0 w)))
            (via (λ q s. IsFor q) StartsFor)
    listened-IsFor c = Ensures-zoom _ _ _ λ s h. listened_step c s h _

    logged-Started :
        {m : Try (ApiCore W) (Unit {0})}
        → Ensures (λ s. IsFree s.resmap) m StartsFor
        → Ensures (λ s. IsFree s.resmap) (logged m) StartsFor
    unfolding logged
    logged-Started {m} h = record {
      at = λ s p. logged_result-Holds Started (λ s. ⊥) (m s).0 (m s).1 (h.at s p);
    }

    pub start_forwarding-Started :
        (client_port : ℤ)
        → Ensures
            (λ s. IsFree s.resmap)
            (start_forwarding env d.name client_port d.fwd_lm.src_addr
              (to_int32 d.fwd_lm.src_port)
              true
              d.fwd_lm.data_rate)
            StartsFor
    unfolding start_forwarding
    start_forwarding-Started client_port = logged-Started (
        Ensures-bind
          (λ c s. IsResolved env d.fwd_lm.src_addr d.fwd_lm.src_port c.1 × IsFree s.resmap)
          (addrs-Located client_port)
          λ c.
            Ensures-bind (λ q s. IsFor q) (listened-IsFor c)
              λ q. Ensures-modify _ λ s h. set_fwdsvc-Started q s h)

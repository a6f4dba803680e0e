-- ===== src/ApiCore/Services.antt =====
-- The forwarding services that the handlers of server/api-core.go keep: whose they are, and that none is
-- closed.
use container_cloudlet.Common.{
  String, ◌≡◌, ◌≢◌, refl, true, false, Option, none, some, arith, lookup, insert, lookup-insert,
  string_eq, str_iff,
}
use container_cloudlet.Go.{Result, ok, fail, panic}
use container_cloudlet.Go.Ensures.{Holds}
use container_cloudlet.FwdSvc.{ForwarderService}
use container_cloudlet.HostConf.{HostConf}
use container_cloudlet.Types.{Deploy, RequestDumpStart}
use container_cloudlet.ApiCore.DumpStart.{dump_start}
use container_cloudlet.ApiCore.{ApiCore, ApiEnv, DeployResource, fwdsvc_of, new_api_core}
use container_cloudlet.ApiCore.Handlers.{deploy}
use container_cloudlet.ApiCore.Remove.{remove}
use container_cloudlet.ApiCore.Entries.{Entries, Kept}
use container_cloudlet.ApiCore.Opened.{AllOpen, AllOpen-none, AllOpen-some}
use container_cloudlet.ApiCore.Frame.{dump_start-Keeps, deploy-Keeps, remove-Keeps}

-- The entry for `j` is `o`.
abbrev pub Entry : String → Option DeployResource → Entries → Type 0
Entry j o m = lookup j m ≡ o

Entry-insert :
    (name j : String) (o : Option DeployResource) (r : DeployResource)
    → name ≢ j
    → (m : Entries) → Entry j o m
    → Entry j o (insert name r m)
Entry-insert name j o r n m e = ground (arith, lookup-insert name j r m, str_iff name j)

module _ {W Signer : Type 0} (env : ApiEnv W Signer) where
  -- A deployment of any type leaves the entries of all other names as they are, however it ends.
  pub deploy-others :
      (d : Deploy) (j : String) (s : ApiCore W)
      → d.name ≢ j
      → Holds
          (Kept (Entry j (lookup j s.resmap)) (λ s'. Entry j (lookup j s.resmap) s'.resmap))
          (deploy env d s)
  deploy-others d j s n =
      let o = lookup j s.resmap in
      (deploy-Keeps env (Entry j o) (λ s'. Entry j o s'.resmap) d.name
          (λ m k. Entry-insert d.name j o (record { fwdsvc = none }) n m)
          (λ m q k x. Entry-insert d.name j o (record { fwdsvc = some q }) n m) (λ s e. e) d
          refl).at
        s refl

  -- A removal leaves the entries of all other names as they are, however it ends.
  remove-others :
      (name j : String) (s : ApiCore W)
      → name ≢ j
      → Holds
          (Kept (Entry j (lookup j s.resmap)) (λ s'. Entry j (lookup j s.resmap) s'.resmap))
          (remove env name s)
  remove-others name j s n =
      let o = lookup j s.resmap in
      (remove-Keeps env (Entry j o) (λ s'. Entry j o s'.resmap) name
          (λ m k. Entry-insert name j o (record { fwdsvc = none }) n m) (λ s q e f c. e)
          (λ m q k. Entry-insert name j o (record { fwdsvc = none }) n m)).at
        s refl

-- The states that deployments, removals and dump requests lead to from a new core.
pub data Reach {W Signer : Type 0} (env : ApiEnv W Signer) : ApiCore W → Type 0 where
  fresh : (c : HostConf) (host gateway : String) (w : W) → Reach env (new_api_core c host gateway w)
  deployed : (d : Deploy) (s : ApiCore W) → Reach env s → Reach env (deploy env d s).1
  removed : (name : String) (s : ApiCore W) → Reach env s → Reach env (remove env name s).1
  dumped : (r : RequestDumpStart) (s : ApiCore W) → Reach env s → Reach env (dump_start env r s).1

module _ {W Signer : Type 0} (env : ApiEnv W Signer) where
  kept_state :
      {A : Type 0} (R : Entries → Type 0) (r : Result A) (s : ApiCore W)
      → Holds (Kept R (λ s. R s.resmap)) (r, s)
      → R s.resmap
  kept_state R (ok a) s h = h
  kept_state R (fail e) s h = h
  kept_state R (panic m) s h = h

  closed_open :
      (name : String) (s : ApiCore W) (q : ForwarderService)
      → AllOpen s.resmap
      → fwdsvc_of name s ≡ some q
      → q.chan_close ≡ true
      → ⊥
  closed_open name s q h e c = let a = h name q e in cc

  pub Reach-AllOpen : (s : ApiCore W) → Reach env s → AllOpen s.resmap
  unfolding lookup new_api_core
  Reach-AllOpen _ (fresh c host gateway w) = λ j q e. absurd (ground arith)
  Reach-AllOpen _ (deployed d s r) = kept_state AllOpen _ _ (
      (deploy-Keeps env AllOpen (λ s. AllOpen s.resmap) d.name (λ m k. AllOpen-none d.name m)
          (λ m q k. AllOpen-some d.name m q) (λ s h. h) d refl).at
        s (Reach-AllOpen s r))
  Reach-AllOpen _ (dumped r s h) = kept_state AllOpen _ _ (
      (dump_start-Keeps env AllOpen (λ s. AllOpen s.resmap) r.name (λ m k. AllOpen-none r.name m)
          (λ s h. h) r refl).at
        s (Reach-AllOpen s h))
  Reach-AllOpen _ (removed name s r) = kept_state AllOpen _ _ (
      (remove-Keeps env AllOpen (λ s. AllOpen s.resmap) name (λ m k. AllOpen-none name m)
          (λ s q h e c. h) (λ m q k. AllOpen-none name m)).at
        s (Reach-AllOpen s r))

  -- In every state that deployments, removals and dump requests lead to, in any order and whatever fails
  -- in them, a forwarding service that is kept under some name is not closed.
  kept_open :
      (s : ApiCore W) (name : String) (q : ForwarderService)
      → Reach env s
      → fwdsvc_of name s ≡ some q
      → q.chan_close ≡ false
  kept_open s name q r e = Reach-AllOpen s r name q e

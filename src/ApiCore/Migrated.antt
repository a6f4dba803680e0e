-- ===== src/ApiCore/Migrated.antt =====
-- The goroutine of `DeployFwdLM` (server/api-core.go) does not leave a service suspended.
use container_cloudlet.Common.{String, ◌≡◌, refl, false, some, lookup, string_eq, inl}
use container_cloudlet.Go.{Result, ok, fail, panic}
use container_cloudlet.Go.Ensures.{Holds}
use container_cloudlet.FwdSvc.{ForwarderService}
use container_cloudlet.Types.{Deploy}
use container_cloudlet.ApiCore.{ApiCore, ApiEnv, stored}
use container_cloudlet.ApiCore.Handlers.{migrate_fwd}
use container_cloudlet.ApiCore.Entries.{Entries, Kept}
use container_cloudlet.ApiCore.Forwards.{Forwards, migrate_fwd-Forwards}

-- A forwarding service is kept for the name, and it is not suspended.
abbrev pub Runs : String → Entries → Type 0
Runs name m = (q : ForwarderService) × (stored (lookup name m) ≡ some q) × (q.is_suspended ≡ false)

module _ {W Signer : Type 0} (env : ApiEnv W Signer) where
  Holds_weaken :
      (name : String) (R : Entries → Type 0)
      → ((m : Entries) → R m → Runs name m)
      → (r : Result (Unit {0})) (s : ApiCore W) → Holds (Kept R (λ t. R t.resmap)) (r, s)
      → Holds (Kept (Runs name) (λ t. Runs name t.resmap)) (r, s)
  Holds_weaken name R k (ok x) s h = k s.resmap h
  Holds_weaken name R k (fail e) s h = k s.resmap h
  Holds_weaken name R k (panic m) s h = k s.resmap h

  -- The goroutine of a deployment with forwarding and migration, where a forwarding service is kept for
  -- the name and runs: whatever fails in the goroutine, at its end a service is kept for the name, and it
  -- is not suspended.
  migrate_fwd-Runs :
      (d : Deploy) (s : ApiCore W)
      → Runs d.name s.resmap
      → Holds (Kept (Runs d.name) (λ s'. Runs d.name s'.resmap)) (migrate_fwd env d s)
  migrate_fwd-Runs d s (q, e, f) =
      let run = migrate_fwd env d s in
      Holds_weaken d.name (Forwards env d q.server_addr q.data_rate) (λ m (p, g, h, l). (p, g, h))
        run.0 run.1
        (migrate_fwd-Forwards env d q.server_addr q.data_rate s (q, e, f, inl (refl, refl)))

-- ===== src/ApiCore/Cleared.antt =====
-- That `Remove` of server/api-core.go lets go of a forwarding service.
use container_cloudlet.Common.{
  String, ◌≡◌, ◌≢◌, refl, sym, ap, true, Option, none, some, arith, lookup, lookup-insert,
  string_eq, str_iff, ◌⊎◌, inl, inr,
}
use container_cloudlet.Go.{Result, ok, fail, panic, failed, modify}
use container_cloudlet.Go.Ensures.{
  Holds, Ensures, Ensures-bind, Ensures-modify, Ensures-zoom, on_part,
}
use container_cloudlet.FwdSvc.{ForwarderService, close}
use container_cloudlet.Kube.{new_client}
use container_cloudlet.ApiCore.{
  ApiCore, ApiEnv, stored, fwdsvc_of, set_fwdsvc, keep, load_or_store, put_world, in_world,
}
use container_cloudlet.ApiCore.Remove.{remove, close_stored}
use container_cloudlet.ApiCore.Entries.{Entries, Kept, then-Keeps, logged-Keeps, new_client-Returns}
use container_cloudlet.ApiCore.Opened.{AllOpen, AllOpen-none}
use container_cloudlet.ApiCore.Frame.{delete_service-Keeps, delete_pod-Keeps, wait_if_deleted-Keeps}
use container_cloudlet.ApiCore.Services.{Reach, Reach-AllOpen}

module _ {W Signer : Type 0} (env : ApiEnv W Signer) where
  -- The service for `name` is gone, or there was no client for the cluster at `w`.
  abbrev pub Cleared : String → W → Entries → Type 0
  Cleared name w m = (stored (lookup name m) ≡ none) ⊎ (failed (new_client env.cluster w).0 ≡ true)

  close_stored-Holds :
      (name : String) (w : W) (s : ApiCore W) (o : Option ForwarderService)
      → fwdsvc_of name s ≡ o
      → AllOpen s.resmap
      → Holds (Kept (Cleared name w) (λ s. ⊥)) (close_stored env name o s)
  unfolding set_fwdsvc close
  close_stored-Holds name w s none e h = inl e
  close_stored-Holds name w s (some q) e h =
      let a = lookup-insert name name (record { fwdsvc = none }) s.resmap in
      let b = h name q e in ground (arith, str_iff name name)

  -- After the service was closed: the rest of `Remove` does not touch the map.
  close_stored-Cleared :
      (name : String) (w : W)
      → Ensures
          (λ s. AllOpen s.resmap)
          (λ s. close_stored env name (fwdsvc_of name s) s)
          (Kept (Cleared name w) (λ s. ⊥))
  close_stored-Cleared name w = record {
    at = λ s h. close_stored-Holds name w s (fwdsvc_of name s) refl h;
  }

  client_result :
      (name : String) (w : W) (s : ApiCore W) (r : Result (Unit {0})) (v : W)
      → AllOpen s.resmap
      → ((m : String) → r ≢ panic m)
      → failed (new_client env.cluster w).0 ≡ failed r
      → Holds
          (on_part
            (put_world s)
            (record (Kept (Cleared name w) (λ s. ⊥)) { returned = λ _ s. AllOpen s.resmap }))
          (r, v)
  client_result name w s (ok a) v h n e = h
  client_result name w s (fail x) v h n e = inr e
  client_result name w s (panic m) v h n e = n m refl

  load_or_store-Open :
      (name : String) (w : W)
      → Ensures
          (λ s. (s.world ≡ w) × AllOpen s.resmap)
          (modify (load_or_store name))
          (record (Kept (Cleared name w) (λ s. ⊥)) {
            returned = λ _ s. (s.world ≡ w) × AllOpen s.resmap;
          })
  unfolding load_or_store
  load_or_store-Open name w = Ensures-modify _ λ s (e, h).
      let a = AllOpen-none name s.resmap h in
      elim (lookup name s.resmap)
        as (λ x. ((keep s name x).world ≡ w) × AllOpen (keep s name x).resmap) [
          | none ↦ (e, a)
          | some r ↦ (e, h)
        ]

  new_client-Cleared :
      (name : String) (w : W)
      → Ensures
          (λ s. (s.world ≡ w) × AllOpen s.resmap)
          (in_world (new_client env.cluster))
          (record (Kept (Cleared name w) (λ s. ⊥)) { returned = λ _ s. AllOpen s.resmap })
  new_client-Cleared name w = Ensures-zoom _ _ _ λ s (e, h).
      client_result name w s (new_client env.cluster s.world).0 (new_client env.cluster s.world).1 h
        (λ m. (new_client-Returns env AllOpen (λ s. ⊥)).at s.world m)
        (ap (λ v. failed (new_client env.cluster v).0) (sym e))

  remove_body :
      (name : String) (w : W)
      → Ensures
          (λ s. (s.world ≡ w) × AllOpen s.resmap)
          (remove env name)
          (Kept (Cleared name w) (λ s. ⊥))
  unfolding remove
  remove_body name w =
      let R = Cleared name w in
      let X = λ (s : ApiCore W). ⊥ in
      logged-Keeps R X (
        Ensures-bind (λ _ s. (s.world ≡ w) × AllOpen s.resmap) (load_or_store-Open name w)
          λ _.
            Ensures-bind (λ _ s. AllOpen s.resmap) (new_client-Cleared name w)
              λ _.
                Ensures-bind (λ _ s. R s.resmap) (close_stored-Cleared name w)
                  λ _. then-Keeps R X (delete_service-Keeps env R X _) λ _.
                    then-Keeps R X (delete_pod-Keeps env R X _)
                      λ b. wait_if_deleted-Keeps env R X b _)

  -- The same for any state in which no kept service is closed.
  pub remove-Cleared_open :
      (name : String) (s : ApiCore W)
      → AllOpen s.resmap
      → Holds (Kept (Cleared name s.world) (λ s'. ⊥)) (remove env name s)
  remove-Cleared_open name s h = (remove_body name s.world).at s (refl, h)

  -- `Remove`, in every state that deployments, removals and dump requests lead to, does not panic, and
  -- when it ends no service is kept for the name any more, unless no client for the cluster could be
  -- made.
  remove-Cleared :
      (name : String) (s : ApiCore W)
      → Reach env s
      → Holds (Kept (Cleared name s.world) (λ s'. ⊥)) (remove env name s)
  remove-Cleared name s r = remove-Cleared_open name s (Reach-AllOpen env s r)

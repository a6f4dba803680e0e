-- ===== src/ApiCore/Frame.antt =====
-- The handlers of server/api-core.go as a whole: whose entries they touch, and which forwarding
-- services they keep.
use container_cloudlet.Common.{
  String, ◌≡◌, refl, sym, subst, Bool, true, false, Option, none, some, arith, lookup, insert,
  string_eq,
}
use container_cloudlet.Go.{Try, modify, zoom, fail, ok, panic, Result}
use container_cloudlet.Go.Ensures.{Holds, Ensures-modify, Ensures-whole, Ensures-return}
use container_cloudlet.FwdSvc.{ForwarderService, close}
use container_cloudlet.Lm.Restore.{Session}
use container_cloudlet.Types.{Deploy, RequestDumpStart}
use container_cloudlet.ApiCore.{ApiCore, ApiEnv, stored, fwdsvc_of, set_fwdsvc}
use container_cloudlet.ApiCore.Handlers.{
  deploy, deploy_new, deploy_fwd, deploy_lm, deploy_fwd_lm, wait_if_new, migrate_if_new,
  without_service,
}
use container_cloudlet.ApiCore.Remove.{
  remove, delete_service, delete_pod, close_stored, wait_if_deleted,
}
use container_cloudlet.Lm.Dump.Start.{start, idle}
use container_cloudlet.ApiCore.DumpStart.{dump_start, dump_service, keep_dump, responded}
use container_cloudlet.ApiCore.Entries.{
  call-Returns, Entries, Kept, Keeps, in_world-Keeps, logged-Keeps, then-Keeps, new_client-Returns,
  create_new_pod-Keeps, create_or_get_cluster_ip-Keeps, load_or_store-Keeps,
  ensure_forwarding-Keeps, forward_to_pod-Keeps,
}

module _ {W Signer : Type 0} (env : ApiEnv W Signer) (R : Entries → Type 0)
    (X : ApiCore W → Type 0) where
  pub say-Keeps :
      (f : ApiCore W → ApiCore W)
      → ((s : ApiCore W) → (f s).resmap ≡ s.resmap)
      → Keeps R X (modify f)
  say-Keeps f e = Ensures-modify _ λ s p. subst R (sym (e s)) p

  wait_if_new-Keeps : (b : Bool) (pod : String) → Keeps R X (wait_if_new env b pod)
  wait_if_new-Keeps true pod = logged-Keeps R X (in_world-Keeps R X (call-Returns _))
  wait_if_new-Keeps false pod = Ensures-return _ λ s p. p

  pub wait_if_deleted-Keeps : (b : Bool) (pod : String) → Keeps R X (wait_if_deleted env b pod)
  wait_if_deleted-Keeps true pod = logged-Keeps R X (in_world-Keeps R X (call-Returns _))
  wait_if_deleted-Keeps false pod = Ensures-return _ λ s p. p

  pub delete_service-Keeps : (name : String) → Keeps R X (delete_service env name)
  unfolding delete_service
  delete_service-Keeps name = record { at = λ s p. ground arith }

  pub delete_pod-Keeps : (name : String) → Keeps R X (delete_pod env name)
  unfolding delete_pod
  delete_pod-Keeps name = record { at = λ s p. ground arith }

  without_service-Keeps :
      (leaves : (s : ApiCore W) → R s.resmap → X s) (m : Try (Session W) (Unit {0}))
      → Keeps R X (without_service m)
  without_service-Keeps leaves m =
      Ensures-whole (Kept R X) _ _ m (λ s p a u. p) (λ s p u. p) (λ s p u. leaves _ p)

  module _ (name : String)
      (none_kept : (m : Entries)
        → lookup name m ≡ none
        → R m
        → R (insert name (record { fwdsvc = none }) m)) where
    module _ (leaves : (s : ApiCore W) → R s.resmap → X s) where
      responded-Keeps :
          (x : Result (Unit {0})) (s : ApiCore W)
          → Holds (Kept R X) (x, s)
          → Holds (Kept R X) (responded env (x, s))
      responded-Keeps (ok a) s h = h
      responded-Keeps (fail e) s h = h
      responded-Keeps (panic m) s h = h

      pub dump_start-Keeps : (r : RequestDumpStart) → r.name ≡ name → Keeps R X (dump_start env r)
      unfolding dump_start
      dump_start-Keeps r e =
          let begin : Keeps R X (λ s.
            zoom (λ s. idle s.world) (keep_dump env)
              (start env.dump s.host_conf (dump_service env r s)) s) =
            record {
              at = λ t h.
                  (Ensures-whole (Kept R X) (λ s. idle s.world) (keep_dump env)
                      (start env.dump t.host_conf (dump_service env r t)) (λ s p a u. p)
                      (λ s p u. p) (λ s p u. leaves _ p)).at
                    t h;
            } in
          let body =
            then-Keeps R X (rw e (load_or_store-Keeps env R X name none_kept))
              λ _. then-Keeps R X (in_world-Keeps R X (new_client-Returns env R X)) λ _. begin in
          record { at = λ s p. responded-Keeps _ _ (body.at s p) }

    module _
        (closes : (s : ApiCore W) (q : ForwarderService)
          → R s.resmap
          → fwdsvc_of name s ≡ some q
          → q.chan_close ≡ true
          → X s)
        (dropped : (m : Entries) (q : ForwarderService)
          → stored (lookup name m) ≡ some q
          → R m
          → R (insert name (record { fwdsvc = none }) m)) where
      close_stored-Holds :
          (s : ApiCore W) (o : Option ForwarderService)
          → R s.resmap
          → fwdsvc_of name s ≡ o
          → Holds (Kept R X) (close_stored env name o s)
      unfolding close set_fwdsvc
      close_stored-Holds s none p e = p
      close_stored-Holds s (some q) p e =
          let a = dropped s.resmap q e p in let b = closes s q p e in ground arith

      close_stored-Keeps : Keeps R X (λ s. close_stored env name (fwdsvc_of name s) s)
      close_stored-Keeps = record { at = λ s p. close_stored-Holds s (fwdsvc_of name s) p refl }

      pub remove-Keeps : Keeps R X (remove env name)
      unfolding remove
      remove-Keeps = logged-Keeps R X (
          then-Keeps R X (load_or_store-Keeps env R X name none_kept) λ _.
            then-Keeps R X (in_world-Keeps R X (new_client-Returns env R X)) λ _.
              then-Keeps R X close_stored-Keeps λ _.
                then-Keeps R X (delete_service-Keeps _)
                  λ _. then-Keeps R X (delete_pod-Keeps _) λ b. wait_if_deleted-Keeps b _)

    module _
        (new_kept : (m : Entries) (q : ForwarderService)
          → stored (lookup name m) ≡ none
          → q.chan_close ≡ false
          → R m
          → R (insert name (record { fwdsvc = some q }) m)) where
      deploy_new-Keeps : (d : Deploy) → d.name ≡ name → Keeps R X (deploy_new env d)
      unfolding deploy_new
      deploy_new-Keeps d e = logged-Keeps R X (
          rw e (
            then-Keeps R X (load_or_store-Keeps env R X name none_kept) λ _.
              then-Keeps R X (in_world-Keeps R X (new_client-Returns env R X)) λ _.
                then-Keeps R X (create_new_pod-Keeps env R X _ _ _ _ _ _ _ _) λ b.
                  then-Keeps R X (create_or_get_cluster_ip-Keeps env R X _ _ _ _) λ ip.
                    then-Keeps R X (forward_to_pod-Keeps env R X name new_kept _ _ _)
                      λ _. wait_if_new-Keeps b _))

      deploy_fwd-Keeps : (d : Deploy) → d.name ≡ name → Keeps R X (deploy_fwd env d)
      unfolding deploy_fwd
      deploy_fwd-Keeps d e = rw e (
          then-Keeps R X (load_or_store-Keeps env R X name none_kept)
            λ _. ensure_forwarding-Keeps env R X name new_kept _ _ _ _ _)

      deploy_fwd_lm-Keeps : (d : Deploy) → d.name ≡ name → Keeps R X (deploy_fwd_lm env d)
      unfolding deploy_fwd_lm
      deploy_fwd_lm-Keeps d e = rw e (
          then-Keeps R X (load_or_store-Keeps env R X name none_kept)
            λ _. ensure_forwarding-Keeps env R X name new_kept _ _ _ _ _)

      module _ (leaves : (s : ApiCore W) → R s.resmap → X s) where
        migrate_if_new-Keeps : (b : Bool) (d : Deploy) → Keeps R X (migrate_if_new env b d)
        migrate_if_new-Keeps true d = logged-Keeps R X (
            then-Keeps R X (in_world-Keeps R X (call-Returns _))
              λ _. record { at = λ s p. (without_service-Keeps leaves _).at s p })
        migrate_if_new-Keeps false d = say-Keeps _ λ s. refl

        deploy_lm-Keeps : (d : Deploy) → d.name ≡ name → Keeps R X (deploy_lm env d)
        unfolding deploy_lm
        deploy_lm-Keeps d e = logged-Keeps R X (
            rw e (
              then-Keeps R X (load_or_store-Keeps env R X name none_kept) λ _.
                then-Keeps R X (in_world-Keeps R X (new_client-Returns env R X)) λ _.
                  then-Keeps R X (create_new_pod-Keeps env R X _ _ _ _ _ _ _ _) λ b.
                    then-Keeps R X (create_or_get_cluster_ip-Keeps env R X _ _ _ _) λ ip.
                      then-Keeps R X (forward_to_pod-Keeps env R X name new_kept _ _ _)
                        λ _. migrate_if_new-Keeps b _))

        pub deploy-Keeps : (d : Deploy) → d.name ≡ name → Keeps R X (deploy env d)
        unfolding deploy modify
        deploy-Keeps d e =
            let a = deploy_new-Keeps d e in
            let b = deploy_fwd-Keeps d e in
            let c = deploy_lm-Keeps d e in
            let f = deploy_fwd_lm-Keeps d e in
            record { at = λ s p. ground (arith, a.at s p, b.at s p, c.at s p, f.at s p) }

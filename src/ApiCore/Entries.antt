-- ===== src/ApiCore/Entries.antt =====
-- What the handlers of server/api-core.go do to the map of deployed resources.
use container_cloudlet.Common.{
  String, ◌≡◌, refl, Bool, false, Option, none, some, List, ℤ, pos, arith, Map, lookup, insert,
  string_eq,
}
use container_cloudlet.Go.{
  GoError, Result, ok, fail, panic, Try, modify, call, answer, return, ◌>>=◌,
}
use container_cloudlet.Go.Ensures.{
  Post, Holds, Ensures, Ensures-bind, Ensures-modify, Ensures-part, Ensures-zoom, Returns,
  Returns-bind,
}
use container_cloudlet.FwdSvc.{ForwarderService, TcpAddr, start_forwarder_service_dr}
use container_cloudlet.Kube.{new_client}
use container_cloudlet.ApiCore.{
  ApiCore, ApiEnv, DeployResource, in_world, logged, logged_result, set_fwdsvc, stored, fwdsvc_of,
  load_or_store, get_forward_addrs, create_new_pod, create_or_get_cluster_ip, start_forwarding,
  ensure_forwarding, forward_to_pod, listened, unless_stored,
}

pub call-Returns : {W : Type 0} (m : W → Option GoError × W) → Returns (call m)
unfolding call
call-Returns m = record { at = λ w x h. ground arith }

pub answer-Returns : {W A : Type 0} (m : W → (Option GoError × A) × W) → Returns (answer m)
unfolding answer
answer-Returns m = record { at = λ w x h. ground arith }

return-Returns : {W A : Type 0} (a : A) → Returns {S = W} (return a)
unfolding return
return-Returns a = record { at = λ w x h. ground arith }

abbrev pub Entries : Type 0
Entries = Map String DeployResource

-- Every exit has `R` of the map, a panic `X`.
abbrev pub Kept : {W A : Type 0} → (Entries → Type 0) → (ApiCore W → Type 0) → Post (ApiCore W) A
Kept R X = record { returned = λ _ s. R s.resmap; errored = λ s. R s.resmap; panicked = X }

module _ {W : Type 0} (R : Entries → Type 0) (X : ApiCore W → Type 0) where
  abbrev pub Keeps : {A : Type 0} → Try (ApiCore W) A → Type 0
  Keeps m = Ensures (λ s. R s.resmap) m (Kept R X)

  pub in_world-Keeps : {A : Type 0} {m : Try W A} → Returns m → Keeps (in_world m)
  in_world-Keeps n = Ensures-part (Kept R X) _ _ n (λ s p a u. p) (λ s p u. p)

  pub logged_result-Holds :
      (r : Result (Unit {0})) (s : ApiCore W)
      → Holds (Kept R X) (r, s)
      → Holds (Kept R X) (logged_result (r, s))
  logged_result-Holds (ok a) s h = h
  logged_result-Holds (fail e) s h = h
  logged_result-Holds (panic m) s h = h

  pub logged-Keeps :
      {P : ApiCore W → Type 0} {m : Try (ApiCore W) (Unit {0})}
      → Ensures P m (Kept R X)
      → Ensures P (logged m) (Kept R X)
  unfolding logged
  logged-Keeps {m = m} h = record { at = λ s p. logged_result-Holds (m s).0 (m s).1 (h.at s p) }

  pub then-Keeps :
      {A B : Type 0} {m : Try (ApiCore W) A} {f : A → Try (ApiCore W) B}
      → Keeps m
      → ((a : A) → Keeps (f a))
      → Keeps (m >>= f)
  then-Keeps h k = Ensures-bind (λ _ s. R s.resmap) h k

module _ {W Signer : Type 0} (env : ApiEnv W Signer) (R : Entries → Type 0)
    (X : ApiCore W → Type 0) where
  get_forward_addrs-Returns :
      (port : ℤ) (addr : String) (remote : ℤ) → Returns (get_forward_addrs env port addr remote)
  unfolding get_forward_addrs
  get_forward_addrs-Returns port addr remote =
      Returns-bind (answer-Returns _) λ c. Returns-bind (answer-Returns _) λ r. return-Returns _

  pub new_client-Returns : Returns (new_client env.cluster)
  unfolding new_client
  new_client-Returns = Returns-bind (call-Returns _) λ _. call-Returns _

  pub create_new_pod-Keeps :
      (label pod c image : String) (port : ℤ) (vars : List (String × String))
      (command args : List String)
      → Keeps R X (create_new_pod env label pod c image port vars command args)
  unfolding create_new_pod
  create_new_pod-Keeps label pod c image port vars command args = record {
    at = λ s p. ground arith;
  }

  pub create_or_get_cluster_ip-Keeps :
      (label service cip : String) (port : ℤ)
      → Keeps R X (create_or_get_cluster_ip env label service cip port)
  unfolding create_or_get_cluster_ip
  create_or_get_cluster_ip-Keeps label service cip port = record { at = λ s p. ground arith }

  module _ (name : String)
      (none_kept : (m : Entries)
        → lookup name m ≡ none
        → R m
        → R (insert name (record { fwdsvc = none }) m)) where
    pub load_or_store-Keeps : Keeps R X (modify (load_or_store name))
    unfolding load_or_store
    load_or_store-Keeps = Ensures-modify _ λ s p. ground (arith, none_kept s.resmap)

  module _ (name : String)
      (new_kept : (m : Entries) (q : ForwarderService)
        → stored (lookup name m) ≡ none
        → q.chan_close ≡ false
        → R m
        → R (insert name (record { fwdsvc = some q }) m)) where
    -- No service is kept for `name`.
    abbrev Absent : ApiCore W → Type 0
    Absent s = (fwdsvc_of name s ≡ none) × R s.resmap

    listened-Open :
        (addrs : TcpAddr × TcpAddr) (ext : Bool) (rate : ℤ)
        → Ensures
            (Absent)
            (in_world (λ w. listened env addrs.0 addrs.1 ext rate (env.listen_tcp "tcp" addrs.0 w)))
            (record (Kept R X) { returned = λ q s. (q.chan_close ≡ false) × Absent s })
    unfolding start_forwarder_service_dr
    listened-Open addrs ext rate = Ensures-zoom _ _ _ λ s p. ground arith

    start_forwarding-Keeps :
        (port : ℤ) (addr : String) (remote : ℤ) (ext : Bool) (rate : ℤ)
        → Ensures Absent (start_forwarding env name port addr remote ext rate) (Kept R X)
    unfolding start_forwarding set_fwdsvc
    start_forwarding-Keeps port addr remote ext rate = logged-Keeps R X (
        Ensures-bind (λ _ s. Absent s)
          (Ensures-part _ _ _ (get_forward_addrs-Returns port addr remote) (λ s p a u. p)
            (λ s p u. p.1))
          λ addrs.
            Ensures-bind (λ q s. (q.chan_close ≡ false) × Absent s) (listened-Open addrs ext rate)
              λ q. Ensures-modify _ λ s (o, a). new_kept s.resmap q a.0 o a.1)

    unless_stored-Holds :
        {m : Try (ApiCore W) (Unit {0})} (s : ApiCore W) (o : Option ForwarderService)
        → fwdsvc_of name s ≡ o
        → R s.resmap
        → Ensures Absent m (Kept R X)
        → Holds (Kept R X) (unless_stored env o m s)
    unless_stored-Holds s none e p h = h.at s (e, p)
    unless_stored-Holds s (some q) e p h = p

    pub ensure_forwarding-Keeps :
        (port : ℤ) (addr : String) (remote : ℤ) (ext : Bool) (rate : ℤ)
        → Keeps R X (ensure_forwarding env name port addr remote ext rate)
    unfolding ensure_forwarding
    ensure_forwarding-Keeps port addr remote ext rate = record {
      at = λ s p.
          unless_stored-Holds s (fwdsvc_of name s) refl p
            (start_forwarding-Keeps port addr remote ext rate);
    }

    pub forward_to_pod-Keeps :
        (port : ℤ) (ip : String) (remote : ℤ) → Keeps R X (forward_to_pod env name port ip remote)
    unfolding forward_to_pod
    forward_to_pod-Keeps port ip remote = record {
      at = λ s p. unless_stored-Holds s (fwdsvc_of name s) refl p (record {
        at = λ t (e, h).
            let k = (start_forwarding-Keeps port ip remote false (pos 0)).at t (e, h) in
            ground arith;
      });
    }

-- ===== src/Main/Starts.antt =====
-- What server/main.go starts the API server with, and when it does not start.
use container_cloudlet.Common.{
  String, ◌≡◌, ◌≢◌, refl, subst, Bool, true, false, Option, none, some, List, [], ◌⊎◌, inl, inr,
}
use container_cloudlet.Go.{GoError, Result, ok, fail, panic, Try, zoom, of_error}
use container_cloudlet.Go.Ensures.{
  Post, Holds, via, Ensures, Ensures-bind, Ensures-modify, Ensures-zoom,
}
use container_cloudlet.Logger.{verbosity_info}
use container_cloudlet.HostConf.{HostConf, load_host_conf}
use container_cloudlet.IfaceAddr.{print_interface_addrs}
use container_cloudlet.Main.Ends.{given, asked, read_args-at_start}
use container_cloudlet.Main.Setup.{
  default_gateway_if, MainEnv, Boot, Ready, panicking, or_panic, or_empty, say, outside,
  interface_addr, gateway_addr, print_addrs, set_up,
}
use container_cloudlet.ApiCore.{new_api_core}

abbrev pub is_ok : {A : Type 0} → Result A → Bool
is_ok (ok a) = true
is_ok _ = false

module _ {W A : Type 0} (q : Post (Boot W) A) where
  panicking-Holds :
      (r : Result A) (s : Boot W)
      → ((a : A) → r ≡ ok a → q.returned a s)
      → (is_ok r ≡ false → q.panicked s)
      → Holds q (panicking (r, s))
  panicking-Holds (ok a) s h k = h a refl
  panicking-Holds (fail e) s h k = k refl
  panicking-Holds (panic m) s h k = k refl

  or_panic-Ensures :
      {P : Boot W → Type 0} (m : Try W A)
      → ((s t : Boot W) → P s → (a : A) → m s.world ≡ (ok a, t.world) → q.returned a t)
      → ((s t : Boot W) → P s → is_ok (m s.world).0 ≡ false → q.panicked t)
      → Ensures P (or_panic (outside m)) q
  unfolding or_panic zoom
  or_panic-Ensures m h k = record {
    at = λ s p.
        let t : Boot W = record s { world = (m s.world).1 } in
        panicking-Holds (m s.world).0 t (λ a e. h s t p a (λ i. (e i, t.world))) (k s t p);
  }

module _ {W : Type 0} (env : MainEnv W) (args : List String) (w : W) where
  abbrev Loaded : HostConf → W → Type 0
  Loaded conf w1 = load_host_conf env.conf w ≡ (ok conf, w1)

  abbrev Located : HostConf → String → W → Type 0
  Located conf addr w2 =
      (w1 : W) × Loaded conf w1
      × (interface_addr env conf.host_network_interface w1 ≡ (ok addr, w2))

  abbrev Gated : HostConf → String → String → Type 0
  Gated conf addr gateway =
      (w2 : W) × Located conf addr w2
      × (gateway ≡ or_empty (interface_addr env default_gateway_if w2).0)

  -- With the settings of the arguments, the configuration that was read, the address of its interface,
  -- the address of docker0, empty if that has none, and no resources.
  abbrev pub StartsWith : Ready W → Type 0
  StartsWith r =
      Gated r.core.host_conf r.core.host_addr r.core.gateway_addr
      × (r.core.resmap ≡ [])
      × (r.core.dumps ≡ [])
      × (r.settings.interactive ≡ given "-i" args)
      × (r.settings.logger.verbosity ≡ asked verbosity_info args)

  -- The configuration cannot be read, its interface has no address, or the interfaces cannot be listed.
  abbrev pub CannotStart : Type 0
  CannotStart =
      (is_ok (load_host_conf env.conf w).0 ≡ false)
      ⊎ ((conf : HostConf) × (w1 : W) × Loaded conf w1
          × (is_ok (interface_addr env conf.host_network_interface w1).0 ≡ false))
      ⊎ ((w3 : W) × ((print_interface_addrs "- " (env.interfaces w3).0).0 ≢ none))

  abbrev pub outcome : Post (Boot W) (Ready W)
  outcome = record { returned = λ r t. StartsWith r; errored = λ t. ⊥; panicked = λ t. CannotStart }

  after_print :
      (e : Option GoError) (t : Boot W) {P : Type 0}
      → P
      → (e ≢ none → CannotStart)
      → Holds (via (λ _ _. P) outcome) (panicking (of_error tt e, t))
  after_print none t h k = h
  after_print (some x) t h k = k (λ p. cc)

  print-Ensures :
      {P : Type 0} → Ensures (λ _. P) (or_panic (print_addrs env)) (via (λ _ _. P) outcome)
  unfolding or_panic print_addrs say
  print-Ensures = record {
    at = λ s p.
        let r = print_interface_addrs "- " (env.interfaces s.world).0 in
        after_print r.0 _ p (λ n. inr (inr (s.world, n)));
  }

  set_up-Ensures : Ensures (λ s. s.world ≡ w) (set_up env args) outcome
  unfolding set_up say gateway_addr new_api_core
  set_up-Ensures =
      Ensures-bind (λ conf t. Loaded conf t.world)
        (or_panic-Ensures _ (load_host_conf env.conf)
          (λ s t p conf e. subst (λ v. load_host_conf env.conf v ≡ (ok conf, t.world)) p e)
          (λ s t p e. inl (subst (λ v. is_ok (load_host_conf env.conf v).0 ≡ false) p e)))
        λ conf.
          Ensures-bind (λ addr t. Located conf addr t.world)
            (or_panic-Ensures _ (interface_addr env conf.host_network_interface)
              (λ s t p addr e. (s.world, p, e)) (λ s t p e. inr (inl (conf, s.world, p, e))))
            λ addr.
              Ensures-bind (λ _ t. Located conf addr t.world) (Ensures-modify _ (λ s p. p))
                λ _.
                  Ensures-bind (λ gateway _. Gated conf addr gateway)
                    (Ensures-zoom _ _ (gateway_addr env) (λ s p. (s.world, p, refl)))
                    λ gateway.
                      Ensures-bind (λ _ _. Gated conf addr gateway) (Ensures-modify _ (λ s p. p))
                        λ _.
                          Ensures-bind (λ _ _. Gated conf addr gateway)
                            (Ensures-modify _ (λ s p. p))
                            λ _.
                              Ensures-bind (λ _ _. Gated conf addr gateway) print-Ensures
                                λ _. (record {
                                  at = λ s p.
                                      let (i, v) = read_args-at_start args in (p, refl, refl, i, v);
                                })

-- Whatever the arguments, the files and the network answer: the program either starts the server with
-- the settings of its arguments, the configuration that it read, the address that `GetInterfaceAddr`
-- gave for the configured interface, the address of docker0 or none, and no resources and no dump
-- services; or it panics because the configuration cannot be read, its interface has no address, or the
-- interfaces cannot be listed. It never returns an error.
pub set_up-Outcome :
    {W : Type 0} (env : MainEnv W) (args : List String) (s : Boot W)
    → Holds (outcome env args s.world) (set_up env args s)
set_up-Outcome env args s = (set_up-Ensures env args s.world).at s refl

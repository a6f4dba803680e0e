-- ===== src/ApiCore/Dumps.antt =====
-- `DumpStart` of server/api-core.go: its response, against what it leaves open.
use container_cloudlet.Common.{
  String, ◌≡◌, refl, true, false, none, some, List, [], ◌∷◌, ◌++◌, ℤ, arith, ◌⊎◌, inl, inr,
}
use container_cloudlet.Go.{Result, ok, fail, panic, modify, zoom}
use container_cloudlet.Go.Ensures.{
  Post, Holds, on_part, Ensures, Ensures-bind, Ensures-modify, Ensures-part, Ensures-zoom,
}
use container_cloudlet.Ssh.{closed_tunnel, both_open}
use container_cloudlet.Types.{RequestDumpStart, Response}
use container_cloudlet.Lm.Dump.Start.{Host, remote_end_addr, start, idle}
use container_cloudlet.Lm.Dump.Release.{Outcome, start-Outcome}
use container_cloudlet.ApiCore.{
  ApiCore, ApiEnv, Started, load_or_store, to_pod_name, to_container_name,
}
use container_cloudlet.ApiCore.DumpStart.{dump_start, dump_service, keep_dump, responded}
use container_cloudlet.ApiCore.Entries.{new_client-Returns}

-- All closed.
abbrev pub ended : Started
ended = record { listener_open = false; tunnel = closed_tunnel; serving = none }

module _ {W Signer : Type 0} (env : ApiEnv W Signer) (r : RequestDumpStart) (host : String) where
  -- A service for the container of this name runs on this host, with a tunnel to the other.
  abbrev pub running : ℤ → Started
  running pid = record {
    listener_open = true;
    tunnel = both_open (remote_end_addr r.dst_addr);
    serving = some (record {
      target = record {
        namespace = "default";
        pod_name = to_pod_name r.name;
        container_name = to_container_name r.name;
      };
      this_addr = host;
      bw_limit = r.bw_limit;
      pid = pid;
    });
  }

  -- Before it, `old` were started.
  abbrev pub Answered : List Started → Response → List Started → Type 0
  Answered old resp now =
      ((resp.succeeded ≡ true) × ((pid : ℤ) × (now ≡ old ++ running pid ∷ [])))
      ⊎ ((resp.succeeded ≡ false) × ((now ≡ old) ⊎ (now ≡ old ++ ended ∷ [])))

  abbrev Begun : List Started → Post (ApiCore W) (Unit {0})
  Begun old = record {
    returned = λ _ s. (pid : ℤ) × (s.dumps ≡ old ++ running pid ∷ []);
    errored = λ s. (s.dumps ≡ old) ⊎ (s.dumps ≡ old ++ ended ∷ []);
    panicked = λ s. ⊥;
  }

  abbrev Before : List Started → ApiCore W → Type 0
  Before old s = (s.dumps ≡ old) × (s.host_addr ≡ host)

  load_or_store-Before :
      (name : String) (old : List Started)
      → Ensures
          (Before old)
          (modify (load_or_store name))
          (record (Begun old) { returned = λ _. Before old })
  unfolding load_or_store
  load_or_store-Before name old = Ensures-modify _ λ s h. ground arith

  started-Begun :
      (old : List Started) (t s : ApiCore W) (x : Result (Unit {0})) (h : Host W)
      → t.host_addr ≡ host
      → s.dumps ≡ old
      → Holds (Outcome (dump_service env r t)) (x, h)
      → Holds (on_part (keep_dump env s) (Begun old)) (x, h)
  unfolding to_pod_name to_container_name
  started-Begun old t s (ok a) h f e (pid, o) = (pid, ground arith)
  started-Begun old t s (fail x) h f e o = inr (ground arith)
  started-Begun old t s (panic _) h f e o = elim o [ ]

  begin-Begun :
      (old : List Started)
      → Ensures
          (Before old)
          (λ s.
            zoom
              (λ s. idle s.world)
              (keep_dump env)
              (start env.dump s.host_conf (dump_service env r s))
              s)
          (Begun old)
  begin-Begun old = record {
    at = λ t h.
        (Ensures-zoom {P = Before old} _ (keep_dump env) _ λ s h'.
            started-Begun old t s _ _ h.1 h'.0
              (start-Outcome env.dump t.host_conf (dump_service env r t) s.world)).at
          t h;
  }

  responded-Answered :
      (old : List Started) (x : Result (Unit {0})) (s : ApiCore W)
      → Holds (Begun old) (x, s)
      → (resp : Response) × ((responded env (x, s)).0 ≡ ok resp)
        × Answered old resp (responded env (x, s)).1.dumps
  responded-Answered old (ok a) s h = (_, refl, inl (refl, h))
  responded-Answered old (fail e) s h = (_, refl, inr (refl, h))
  responded-Answered old (panic _) s h = elim h [ ]

module _ {W Signer : Type 0} (env : ApiEnv W Signer) where
  -- A request to start a dump is always answered. The response says success exactly if a service for the
  -- container of that name now runs on this host over an open listener and an open tunnel; otherwise
  -- nothing new is left open or running.
  pub dump_start-Answered :
      (r : RequestDumpStart) (s : ApiCore W)
      → (resp : Response) × ((dump_start env r s).0 ≡ ok resp)
        × Answered env r s.host_addr s.dumps resp (dump_start env r s).1.dumps
  unfolding dump_start
  dump_start-Answered r s = responded-Answered env r s.host_addr s.dumps _ _ (
      (Ensures-bind (λ _. Before env r s.host_addr s.dumps)
          (load_or_store-Before env r s.host_addr r.name s.dumps)
          λ _.
            Ensures-bind (λ _. Before env r s.host_addr s.dumps)
              (Ensures-part _ _ _ (new_client-Returns env (λ m. Unit {0}) (λ s. ⊥)) (λ s p a u. p)
                (λ s p u. inl p.0))
              λ _. begin-Begun env r s.host_addr s.dumps).at
        s (refl, refl))

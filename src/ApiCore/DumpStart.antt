-- ===== src/ApiCore/DumpStart.antt =====
-- `DumpStart` of server/api-core.go, which starts a dump service on this host.
use container_cloudlet.Common.{true, false, [], ◌∷◌, ◌++◌ as append, string_eq}
use container_cloudlet.Go.{Result, ok, fail, panic, Try, modify, zoom, ◌>>◌}
use container_cloudlet.Logger.{error}
use container_cloudlet.Kube.{new_client}
use container_cloudlet.Types.{RequestDumpStart, Response}
use container_cloudlet.Lm.Dump.Start.{DumpService, Host, start, idle}
use container_cloudlet.ApiCore.{ApiCore, ApiEnv, Started, put_world, in_world, say, load_or_store}
use container_cloudlet.ApiCore.Handlers.{target_of}

module _ {W Signer : Type 0} (env : ApiEnv W Signer) where
  abbrev pub dump_service : RequestDumpStart → ApiCore W → DumpService
  dump_service r s = record {
    target = target_of r.name;
    this_addr = s.host_addr;
    dst_addr = r.dst_addr;
    bw_limit = r.bw_limit;
  }

  -- What an ended `Start` leaves open, if anything.
  abbrev pub kept : Host W → Started
  kept h = record { listener_open = h.listener_open; tunnel = h.tunnel; serving = h.serving }

  abbrev pub keep_dump : ApiCore W → Host W → ApiCore W
  keep_dump s h = record (put_world s h.world) { dumps = append s.dumps (kept h ∷ []) }

  abbrev pub responded : Result (Unit {0}) × ApiCore W → Result Response × ApiCore W
  responded (ok a, s) = (ok (record { succeeded = true; msg = "" }), s)
  responded (fail e, s) = (ok (record { succeeded = false; msg = e.text }), say error e.text s)
  responded (panic m, s) = (panic m, s)

  -- `DumpStart`
  unfoldable pub dump_start : RequestDumpStart → Try (ApiCore W) Response
  unfolding load_or_store
  dump_start r s = responded (
      (do
        modify (load_or_store r.name)
        in_world (new_client env.cluster)
        (λ s. zoom (λ s. idle s.world) keep_dump (start env.dump s.host_conf (dump_service r s)) s))
        s)

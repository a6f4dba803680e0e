-- ===== src/Lm/Dump/Ended.antt =====
-- What is left of a dump service of server/lm.go when its goroutine has returned.
use container_cloudlet.Common.{
  ℕ, ◌≡◌, refl, sym, subst, Bool, true, false, some, List, [], ℤ, arith,
}
use container_cloudlet.Go.{Result, ok}
use container_cloudlet.Go.Ensures.{Holds}
use container_cloudlet.HostConf.{HostConf}
use container_cloudlet.Lm.Dump.{Service}
use container_cloudlet.Lm.Dump.Answers.{has_end, serve-expected}
use container_cloudlet.Lm.Dump.Start.{DumpService, DumpEnv, Host, put_world, start, finish, idle}
use container_cloudlet.Lm.Dump.Release.{
  IsServing, IsReleased, Outcome, start-Outcome, finish-IsReleased,
}
use container_cloudlet.Lm.Dump.Connection.{
  Accepted, refused, connected, Ran, leave, loop_left, goroutine,
}

-- `Accept` fails, or some read or write on the connection ends the loop.
abbrev pub has_end_in : Accepted → Bool
has_end_in (refused e) = true
has_end_in (connected rs) = has_end rs

module _ {W Signer : Type 0} (env : DumpEnv W Signer) (conf : HostConf) (p : DumpService) where
  -- All is closed and nothing runs, or all is still open and the goroutine serves.
  abbrev pub EndedIf : Bool → Ran W → Type 0
  EndedIf true r =
      (r.returned ≡ true) × (r.conn_open ≡ false) × IsReleased r.host × (r.host.chan_closes ≡ 1)
  EndedIf false r = (r.returned ≡ false) × (r.conn_open ≡ true) × (pid : ℤ) × IsServing p pid r.host

  put_world-IsServing :
      (h : Host W) (pid : ℤ) (w : W) → IsServing p pid h → IsServing p pid (put_world h w)
  put_world-IsServing h pid w v = record {
    listener = v.listener;
    tunnel = v.tunnel;
    untouched = v.untouched;
    service = v.service;
  }

  closes_once : (h : Host W) (pid : ℤ) → IsServing p pid h → (finish env conf p h).chan_closes ≡ 1
  unfolding finish
  closes_once h pid v = ground (arith, v.untouched)

  leave-EndedIf :
      (b : Bool) (replies : List ℕ) (h : Host W) (pid : ℤ)
      → IsServing p pid h
      → EndedIf b (leave env conf p b replies h)
  leave-EndedIf true replies h pid v =
      (refl, refl, finish-IsReleased env conf p h pid v, closes_once h pid v)
  leave-EndedIf false replies h pid v = (refl, refl, pid, v)

  goroutine-EndedIf :
      (a : Accepted) (q : Service) (h : Host W) (pid : ℤ)
      → IsServing p pid h
      → EndedIf (has_end_in a) (goroutine env conf p a q h)
  unfolding goroutine
  goroutine-EndedIf (refused e) q h pid v = leave-EndedIf true [] h pid v
  goroutine-EndedIf (connected rs) q h pid v =
      subst (λ r. EndedIf (has_end rs) (loop_left env conf p h r))
        (sym (serve-expected env.exec q rs 1 h.world))
        (leave-EndedIf (has_end rs) _ _ pid (put_world-IsServing h pid _ v))

  started-IsServing :
      (r : Result (Unit {0}) × Host W) (h : Host W)
      → Holds (Outcome p) r
      → r ≡ (ok tt, h)
      → (pid : ℤ) × IsServing p pid h
  started-IsServing r h v e = subst (Holds (Outcome p)) e v

  -- When `Start` has returned without an error, its goroutine has returned exactly if `Accept` failed, or
  -- some read on the connection failed or brought nothing, or some reply could not be written. Then the
  -- connection, the message listener and the tunnel are closed, the tunnel's channel once, and nothing
  -- serves any more; otherwise all of them are open.
  pub started-EndedIf :
      (w : W) (h : Host W) (q : Service) (a : Accepted)
      → start env conf p (idle w) ≡ (ok tt, h)
      → h.serving ≡ some q
      → EndedIf (has_end_in a) (goroutine env conf p a q h)
  started-EndedIf w h q a e s =
      let (pid, v) = started-IsServing _ h (start-Outcome env conf p w) e in
      goroutine-EndedIf a q h pid v

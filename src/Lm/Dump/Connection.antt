-- ===== src/Lm/Dump/Connection.antt =====
-- The goroutine of `LM_DumpService.Start` (server/lm.go) from its `Accept` to its end.
use container_cloudlet.Common.{ℕ, Bool, true, false, List, []}
use container_cloudlet.Go.{GoError}
use container_cloudlet.HostConf.{HostConf}
use container_cloudlet.Lm.Dump.{Service}
use container_cloudlet.Lm.Dump.Serve.{Round, Served, serve}
use container_cloudlet.Lm.Dump.Start.{DumpService, DumpEnv, Host, put_world, finish}

-- What `Accept` of the message listener yields: an error, or a connection with what its reads and
-- writes yield.
pub data Accepted : Type 0 where
  refused : GoError → Accepted
  connected : List Round → Accepted

-- The host, the replies, whether the connection is open, and whether the goroutine has returned.
pub record Ran (W : Type 0) : Type 0 where
  pub host : Host W
  pub replies : List ℕ
  pub conn_open : Bool
  pub returned : Bool

module _ {W Signer : Type 0} (env : DumpEnv W Signer) (conf : HostConf) (p : DumpService) where
  -- The `defer`s run when the loop has returned.
  abbrev pub leave : Bool → List ℕ → Host W → Ran W
  leave true replies h = record {
    host = finish env conf p h;
    replies = replies;
    conn_open = false;
    returned = true;
  }
  leave false replies h = record { host = h; replies = replies; conn_open = true; returned = false }

  abbrev pub loop_left : Host W → Served × W → Ran W
  loop_left h (s, w) = leave s.stopped s.replies (put_world h w)

  unfoldable pub goroutine : Accepted → Service → Host W → Ran W
  goroutine (refused e) q h = leave true [] h
  goroutine (connected rs) q h = loop_left h (serve env.exec q 1 rs h.world)

-- ===== src/Lm/Dump/Serve.antt =====
-- The goroutine of `LM_DumpService.Start` (server/lm.go), which serves one connection.
use container_cloudlet.Common.{ℕ, ◌+◌, Bool, true, false, Option, none, some, List, [], ◌∷◌}
use container_cloudlet.Go.{GoError}
use container_cloudlet.KubeExec.{Executor}
use container_cloudlet.Lm.Dump.{Service, handle_request}

-- What a `Read` into the buffer of one byte yields.
pub data Incoming : Type 0 where
  byte : ℕ → Incoming
  failure : GoError → Incoming
  nothing : Incoming

-- A read, and what the write of the reply to it yields.
pub record Round : Type 0 where
  pub incoming : Incoming
  pub write_error : Option GoError

-- The replies, and whether the loop returned. If not, it waits for the next read.
pub record Served : Type 0 where
  pub replies : List ℕ
  pub stopped : Bool

abbrev stop : List ℕ → Served
stop replies = record { replies = replies; stopped = true }

abbrev pub prepend : {W : Type 0} → ℕ → Served × W → Served × W
prepend resp (s, w) = (record s { replies = resp ∷ s.replies }, w)

module _ {W : Type 0} (x : Executor W) (p : Service) where
  abbrev answer : Option GoError → (W → Served × W) → ℕ × W → Served × W
  answer none rest (resp, w) = prepend resp (rest w)
  answer (some e) rest (resp, w) = (stop (resp ∷ []), w)

  abbrev pub receive : ℕ → Incoming → Option GoError → (W → Served × W) → W → Served × W
  receive itercnt (byte req) e rest w = answer e rest (handle_request x p itercnt req w)
  receive itercnt (failure e') e rest w = (stop [], w)
  receive itercnt nothing e rest w = (stop [], w)

  unfoldable pub serve : ℕ → List Round → W → Served × W
  serve itercnt [] w = (record { replies = []; stopped = false }, w)
  serve itercnt (r ∷ rs) w = receive itercnt r.incoming r.write_error (serve (itercnt + 1) rs) w

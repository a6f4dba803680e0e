-- ===== src/Main/Run.antt =====
-- `main` of server/main.go from the start of the API server to its end, together with the accept loop of
-- server/api-server.go, as a step relation, with the ways in which the program ends before `main` returns.
use container_cloudlet.Common.{ℕ, String, ◌≡◌, Bool, true, false, List, [], some}
use container_cloudlet.Go.{GoError, panic}
use container_cloudlet.ApiServer.Accept.{Server, started, start_api_server, Answer, at_test}
use container_cloudlet.ApiServer.Accept
use container_cloudlet.Main.{start_command_line}
use container_cloudlet.Main.Signals.{Signals, listening}
use container_cloudlet.Main.Signals as Signal

-- Where `main` stands: in `startCommandLine` or `waitForSignal`, behind it, in the sleep behind
-- `close(chanClose)`, returned, or ended by a panic or a signal.
pub data Phase : Type 0 where
  waits stopping sleeps over dead : Phase

-- Behind the end of `main` no goroutine runs.
abbrev pub IsRunning : Phase → Type 0
IsRunning over = ⊥
IsRunning dead = ⊥
IsRunning _ = Unit

pub record Program : Type 0 where
  pub main : Phase
  pub server : Server
  pub signals : Signals

abbrev pub running : Program
running = record { main = waits; server = started; signals = listening }

-- For a program that is interactive or not, with the lines of its standard input.
pub data Step (interactive : Bool) (lines : List (List String)) (s : Program)
    : Program → Type 0 where
  -- the goroutines of the server; only `main` closes the channel
  serves :
      {xs : List Answer} {t : Server}
      → IsRunning s.main
      → Accept.Step s.server xs t
      → t.chan_closed ≡ s.server.chan_closed
      → Step interactive lines s (record s { server = t })
  -- `startCommandLine` returns, after some rounds
  quits :
      (rounds : ℕ)
      → s.main ≡ waits
      → interactive ≡ true
      → (start_command_line rounds lines).returned ≡ true
      → Step interactive lines s (record s { main = stopping })
  -- in `waitForSignal`
  hears :
      {g : Signals}
      → IsRunning s.main
      → interactive ≡ false
      → Signal.Step s.signals g
      → Step interactive lines s (record s { signals = g })
  -- `waitForSignal` returns
  signalled :
      s.main ≡ waits
      → interactive ≡ false
      → s.signals.wg ≡ 0
      → Step interactive lines s (record s { main = stopping })
  closes :
      s.main ≡ stopping
      → Step interactive lines s
          (record s { main = sleeps; server = record s.server { chan_closed = true } })
  exits : s.main ≡ sleeps → Step interactive lines s (record s { main = over })
  -- `StartAPIServer` panics, since `net.Listen` fails
  cannot_listen :
      (e : GoError)
      → IsRunning s.main
      → (s.server.loop ≡ at_test) × (s.server.handled ≡ []) × (s.server.logged ≡ [])
      → start_api_server (some e) ≡ panic e.text
      → Step interactive lines s (record s { main = dead })
  -- a handler or another goroutine panics, which ones is left open
  panics : IsRunning s.main → Step interactive lines s (record s { main = dead })
  -- a signal that the program does not handle
  killed : IsRunning s.main → Step interactive lines s (record s { main = dead })

pub data Reach (interactive : Bool) (lines : List (List String)) : Program → Type 0 where
  here : Reach interactive lines running
  next :
      {s t : Program}
      → Reach interactive lines s
      → Step interactive lines s t
      → Reach interactive lines t

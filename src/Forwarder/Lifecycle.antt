-- ===== src/Forwarder/Lifecycle.antt =====
-- One forwarder's goroutines (server/fwd.go) as a step relation: `Accept`, its two streams, and calls of
-- `Close` from outside. A step is what runs between two points where another goroutine may come in.
use container_cloudlet.Common.{◌≡◌, Bool, true, false, Option, none, some, ℤ}
use container_cloudlet.Go.{Result, ok, fail, panic}
use container_cloudlet.Forwarder.{
  Conn, Forwarder, new_forwarder, set_data_rate, close_upstream, close_downstream, accept_client,
  dial_failed, dialled, streams_finished,
}

-- Where `Accept` stands: not called yet, in `dialTCP`, in `wg.Wait` with the streams that still run, or
-- returned.
pub data Phase : Type 0 where
  created dialling finished : Phase
  streaming : (up down : Bool) → Phase

pub record Running : Type 0 where
  pub phase : Phase
  pub fwdr : Forwarder

-- What can happen next.
pub data Event : Type 0 where
  -- `Accept` is called with a client's connection
  accepts : Conn → Event
  -- `dialTCP` fails, or gives a connection
  dial_fails : Event
  dials : Conn → Event
  -- a stream's loop has returned, and its deferred call is made
  upstream_ends downstream_ends : Event
  -- `wg.Wait` returns
  both_ended : Event
  -- somebody calls `Close`, up to its wait
  close_called : Event

abbrev pub moved : Phase → Result Forwarder → Result Running
moved ph (ok f) = ok (record { phase = ph; fwdr = f })
moved ph (fail e) = fail e
moved ph (panic m) = panic m

-- The state after an event, where the event can happen.
abbrev pub happen : Phase → Forwarder → Event → Option (Result Running)
happen created p (accepts c) = some (ok (record { phase = dialling; fwdr = accept_client p c }))
happen dialling p dial_fails = some (moved finished (dial_failed p))
happen dialling p (dials c) = some (ok (record { phase = streaming true true; fwdr = dialled p c }))
happen (streaming true down) p upstream_ends =
    some (moved (streaming false down) (close_downstream p))
happen (streaming up true) p downstream_ends = some (moved (streaming up false) (close_upstream p))
happen (streaming false false) p both_ended = some (moved finished (streams_finished p))
happen ph p close_called = some (moved ph (close_upstream p))
happen ph p e = none

-- A forwarder as `listener` makes it (server/fwdsvc.go).
unfoldable pub made : ℤ → Running
made rate = record { phase = created; fwdr = set_data_rate new_forwarder rate }

pub data Reach (rate : ℤ) : Running → Type 0 where
  here : Reach rate (made rate)
  next :
      (r : Running) (e : Event) {s : Running}
      → Reach rate r
      → happen r.phase r.fwdr e ≡ some (ok s)
      → Reach rate s

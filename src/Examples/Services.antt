-- ===== src/Examples/Services.antt =====
-- Runs of one forwarder and of a forwarding service (server/fwd.go, server/fwdsvc.go), from their start.
use container_cloudlet.Common.{◌≡◌, ◌≢◌, refl, true, false, none, some, pos, inl}
use container_cloudlet.Go.{panic}
use container_cloudlet.Forwarder.{
  fresh_conn, new_forwarder, set_data_rate, accept_client, dial_failed, dialled, close_upstream,
}
use container_cloudlet.Forwarder.Lifecycle.{
  Running, dialling, finished, streaming, dials, accepts, dial_fails, close_called, happen, made,
}
use container_cloudlet.Forwarder.Lifecycle as Forward
use container_cloudlet.Forwarder.Safety.{
  Released, reach-no_panic, close_before_accept, finished-Released,
}
use container_cloudlet.Forwarder.Ending.{Inevitable, close-Inevitable}
use container_cloudlet.FwdSvc.Shut.{IsOver, close-Ends}
use container_cloudlet.FwdSvc.{request_suspend, push_forwarder, close, close_all_forwarders}
use container_cloudlet.FwdSvc.System.{
  System, broadcast, accepted, shuts, at_lock, parked, stopped, outside, suspending, suspended,
  closing, drained, AllFinished, Step, pass, stops, accepts_conn, pushes, park, suspends, receives,
  closes, drains, IsStarted, Reach, here, next,
}
use container_cloudlet.FwdSvc.Safety.{suspended-parked}
use container_cloudlet.FwdSvc.Entries.{AllAimed}
use container_cloudlet.FwdSvc.Drain.{drained-AllFinished, Reach-AllAimed}
use container_cloudlet.FwdSvc.Hang.{MayHang, suspend_hangs, drained-MayHang}
use container_cloudlet.Examples.Worlds.{service}

-- With a rate limit.
abbrev dialling_one : Running
dialling_one = record { phase = dialling; fwdr = accept_client (made (pos 10)).fwdr fresh_conn }

dialling_reached : Forward.Reach (pos 10) dialling_one
unfolding made
dialling_reached = Forward.next (made (pos 10)) (accepts fresh_conn) Forward.here refl

reach-no_panic_example :
    happen dialling_one.phase dialling_one.fwdr close_called
    ≢ some (panic "nil pointer dereference")
reach-no_panic_example =
    reach-no_panic dialling_reached (λ p. cc) close_called "nil pointer dereference"

-- `Close` comes while both streams run.
abbrev streaming_one : Running
streaming_one = record { phase = streaming true true; fwdr = dialled dialling_one.fwdr fresh_conn }

streaming_reached : Forward.Reach (pos 10) streaming_one
unfolding dialled
streaming_reached = Forward.next dialling_one (dials fresh_conn) dialling_reached refl

abbrev closed_one : Running
closed_one = record {
  phase = streaming true true;
  fwdr = record (streaming_one.fwdr) {
    client_conn = some (record fresh_conn { read_closed = true; linger_zero = true });
    is_up_closed = true;
    chan_emergency_close = some true;
  };
}

close-Inevitable_example : Inevitable closed_one
unfolding dialled accept_client made new_forwarder set_data_rate close_upstream
close-Inevitable_example = close-Inevitable {s = closed_one} streaming_reached refl

close_before_accept_example :
    happen (made (pos 10)).phase (made (pos 10)).fwdr close_called
    ≡ some (panic "nil pointer dereference")
unfolding made
close_before_accept_example = close_before_accept (pos 10) (made (pos 10)) Forward.here refl

abbrev refused : Running
refused = record {
  phase = finished;
  fwdr = record new_forwarder {
    data_rate = pos 10;
    client_conn = some (record fresh_conn { linger_zero = true; closed = true });
    chan_emergency_close = some false;
    chan_closed = true;
  };
}

refused_reached : Forward.Reach (pos 10) refused
unfolding made new_forwarder set_data_rate accept_client dial_failed
refused_reached = Forward.next dialling_one dial_fails dialling_reached refl

finished-Released_example :
    (refused.fwdr.chan_closed ≡ true)
    × (refused.fwdr.client_conn ≢ none)
    × Released refused.fwdr.client_conn
    × Released refused.fwdr.server_conn
finished-Released_example = finished-Released refused_reached refl

abbrev begin : System
begin = record { svc = service; listener = at_lock; controller = outside; listening = true }

begin-IsStarted : IsStarted begin
begin-IsStarted = record {
  no_fwdrs = refl;
  running = refl;
  empty = refl;
  at_head = refl;
  free = refl;
  open_socket = refl;
}

-- `Suspend` is called, the listener answers, and `Suspend` returns.
abbrev asked : System
asked = record begin {
  svc = record service { is_suspended = true };
  listener = at_lock;
  controller = suspending;
}

asked_reached : Reach begin asked
unfolding request_suspend
asked_reached = next here (suspends refl)

abbrev behind : System
behind = record asked { listener = parked; controller = suspended }

behind_reached : Reach begin behind
behind_reached = next (next asked_reached (park refl refl refl)) (receives refl refl)

-- `CloseAllForwarders` is called, and returns.
close-Step : Step behind (record behind { controller = closing })
unfolding close_all_forwarders
close-Step = closes refl refl

abbrev after : System
after = record behind { controller = drained }

after_reached : Reach begin after
after_reached = next (next behind_reached close-Step) (drains refl tt)

suspended-parked_example : (behind.listener ≡ parked) × (behind.svc.is_suspended ≡ true)
suspended-parked_example = suspended-parked begin-IsStarted behind_reached tt

drained-AllFinished_example : AllFinished after.svc.fwdrs
drained-AllFinished_example = drained-AllFinished begin-IsStarted after_reached refl

Reach-AllAimed_example : AllAimed after.svc.server_addr after.svc.fwdrs
Reach-AllAimed_example = Reach-AllAimed begin-IsStarted after_reached

-- The listener has returned.
abbrev halted : System
halted = record begin { listener = stopped }

halted_reached : Reach begin halted
halted_reached = next (next here (pass refl refl)) (stops refl)

-- `Suspend` is called all the same, and then the service is closed.
abbrev waiting : System
waiting = record halted {
  svc = record service { is_suspended = true; chan_close = true };
  controller = suspending;
}

waiting_reached :
    Reach
      (record halted {
        svc = request_suspend halted.svc;
        listener = broadcast halted.listener;
        controller = suspending;
      })
      waiting
unfolding request_suspend close
waiting_reached = next here (shuts refl)

suspend_hangs_example : waiting.controller ≡ suspending
suspend_hangs_example = suspend_hangs begin-IsStarted halted_reached refl (inl refl) waiting_reached

drained-MayHang_example : MayHang after
drained-MayHang_example = drained-MayHang begin-IsStarted after_reached refl

-- `Close` comes when one forwarder is listed and the listener has the next connection.
abbrev ending : System
ending = record begin {
  svc = record (push_forwarder service) { chan_close = true };
  listener = accepted;
}

ending_reached : Reach begin ending
unfolding push_forwarder close
ending_reached =
    let pushed = next (next (next here (pass refl refl)) (accepts_conn refl refl)) (pushes refl) in
    next (next (next pushed (pass refl refl)) (accepts_conn refl refl)) (shuts refl)

close-Ends_example :
    (u : System) × Reach ending u × IsOver u × ((v : System) → Reach u v → IsOver v)
close-Ends_example = close-Ends begin-IsStarted ending_reached refl refl

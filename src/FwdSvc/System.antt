-- ===== src/FwdSvc/System.antt =====
-- The threads of server/fwdsvc.go as a step relation: the listener, one controller that calls `Suspend`,
-- `CloseAllForwarders`, `ChangeServerAddr`, `ChangeDataRate` and `Resume` in the order of server/lm.go,
-- the goroutine that closes the socket, and the forwarders' goroutines. A step runs under one lock, or
-- between two blocking calls; a step in which a call panics is none, so a run ends before it.
use container_cloudlet.Common.{◌≡◌, Bool, true, false, Option, some, List, [], ◌∷◌, ℤ}
use container_cloudlet.Go.{ok}
use container_cloudlet.Forwarder.Lifecycle.{finished, Running, Event, accepts, happen}
use container_cloudlet.FwdSvc.{
  ForwarderService, Entry, TcpAddr, request_suspend, resume, close, close_all_forwarders,
  change_server_addr, change_data_rate, push_forwarder,
}

-- Where `listener` stands: at the lock of a round, in `condSuspend.Wait`, woken there, in `AcceptTCP`,
-- behind it with a connection, or returned.
pub data Listener : Type 0 where
  at_lock parked woken accepting accepted stopped : Listener

-- Where the controller stands: outside, in the wait of `Suspend`, behind `Suspend`, in the wait of
-- `CloseAllForwarders`, or behind it.
pub data Controller : Type 0 where
  outside suspending suspended closing drained : Controller

pub record System : Type 0 where
  pub svc : ForwarderService
  pub listener : Listener
  pub controller : Controller
  -- whether the listener's socket is open
  pub listening : Bool

-- `condSuspend.Broadcast`
abbrev pub broadcast : Listener → Listener
broadcast parked = woken
broadcast l = l

abbrev pub target_after : TcpAddr → Event → Option TcpAddr → Option TcpAddr
target_after a (accepts c) t = some a
target_after a e t = t

-- One forwarder's goroutines move, with the server address `a` in the service, or a forwarder whose
-- `Accept` has returned is removed.
pub data Change (a : TcpAddr) : List Entry → List Entry → Type 0 where
  moves :
      (e : Entry) (ev : Event) {r : Running} {es : List Entry}
      → happen e.running.phase e.running.fwdr ev ≡ some (ok r)
      → Change a (e ∷ es) ((record { running = r; target = target_after a ev e.target }) ∷ es)
  removed : (e : Entry) {es : List Entry} → e.running.phase ≡ finished → Change a (e ∷ es) es
  later : (e : Entry) {es fs : List Entry} → Change a es fs → Change a (e ∷ es) (e ∷ fs)

abbrev pub AllFinished : List Entry → Type 0
AllFinished [] = Unit
AllFinished (e ∷ es) = (e.running.phase ≡ finished) × AllFinished es

-- The channel `chanClosed` of each is closed.
abbrev pub AllClosed : List Entry → Type 0
AllClosed [] = Unit
AllClosed (e ∷ es) = (e.running.fwdr.chan_closed ≡ true) × AllClosed es

pub data Step (s : System) : System → Type 0 where
  -- the listener
  pass :
      s.listener ≡ at_lock → s.svc.is_suspended ≡ false → Step s (record s { listener = accepting })
  park :
      s.listener ≡ at_lock
      → s.svc.is_suspended ≡ true
      → s.svc.chan_suspend ≡ 0
      → Step s (record s { svc = record s.svc { chan_suspend = 1 }; listener = parked })
  leave :
      s.listener ≡ woken → s.svc.is_suspended ≡ false → Step s (record s { listener = accepting })
  park_again :
      s.listener ≡ woken → s.svc.is_suspended ≡ true → Step s (record s { listener = parked })
  times_out : s.listener ≡ accepting → s.listening ≡ true → Step s (record s { listener = at_lock })
  accepts_conn :
      s.listener ≡ accepting → s.listening ≡ true → Step s (record s { listener = accepted })
  pushes :
      s.listener ≡ accepted → Step s (record s { svc = push_forwarder s.svc; listener = at_lock })
  -- any other error, of a socket that is open or not
  stops : s.listener ≡ accepting → Step s (record s { listener = stopped })
  -- the controller
  suspends :
      s.controller ≡ outside
      → Step s (record s {
        svc = request_suspend s.svc;
        listener = broadcast s.listener;
        controller = suspending;
      })
  receives :
      s.controller ≡ suspending
      → s.svc.chan_suspend ≡ 1
      → Step s (record s { svc = record s.svc { chan_suspend = 0 }; controller = suspended })
  closes :
      {p : ForwarderService}
      → s.controller ≡ suspended
      → close_all_forwarders s.svc ≡ ok p
      → Step s (record s { svc = p; controller = closing })
  -- the same, where its goroutines call `Close` one by one later, as moves of the forwarders
  starts_closing :
      s.controller ≡ suspended
      → s.svc.is_suspended ≡ true
      → Step s (record s { controller = closing })
  -- its goroutines return from `<-p.chanClosed`
  drains :
      s.controller ≡ closing → AllClosed s.svc.fwdrs → Step s (record s { controller = drained })
  changes_addr :
      {p : ForwarderService} (a : TcpAddr)
      → s.controller ≡ drained
      → change_server_addr s.svc a ≡ ok p
      → Step s (record s { svc = p })
  changes_rate :
      {p : ForwarderService} (rate : ℤ)
      → s.controller ≡ drained
      → change_data_rate s.svc rate ≡ ok p
      → Step s (record s { svc = p })
  resumes :
      s.controller ≡ drained
      → Step s
          (record s { svc = resume s.svc; listener = broadcast s.listener; controller = outside })
  -- anybody: `Close`
  shuts : {p : ForwarderService} → close s.svc ≡ ok p → Step s (record s { svc = p })
  -- the goroutine that waits for `chanClose` and closes the socket
  shuts_socket :
      s.svc.chan_close ≡ true → s.listening ≡ true → Step s (record s { listening = false })
  -- the forwarders
  forwards :
      {es : List Entry}
      → Change s.svc.server_addr s.svc.fwdrs es
      → Step s (record s { svc = record s.svc { fwdrs = es } })

-- A service that was just started.
pub record IsStarted (s : System) : Type 0 where
  pub no_fwdrs : s.svc.fwdrs ≡ []
  pub running : s.svc.is_suspended ≡ false
  pub empty : s.svc.chan_suspend ≡ 0
  pub at_head : s.listener ≡ at_lock
  pub free : s.controller ≡ outside
  pub open_socket : s.listening ≡ true

pub data Reach (s : System) : System → Type 0 where
  here : Reach s s
  next : {t u : System} → Reach s t → Step t u → Reach s u

-- ===== src/FwdSvc.antt =====
-- `ForwarderService` of server/fwdsvc.go: its state and its methods. The threads are in FwdSvc.System.
-- Log output is not modelled.
pub mod System
pub mod Safety
pub mod Entries
pub mod Drain
pub mod Hang
pub mod Lives
pub mod Progress
pub mod Shut
use container_cloudlet.Common.{
  ℕ, String, Bool, true, false, not, Option, none, some, List, [], ◌∷◌, ◌++◌, ℤ, pos, if◌then◌else◌,
}
use container_cloudlet.Go.{GoError, Result, ok, fail, panic}
use container_cloudlet.Forwarder.{Conn, Forwarder, close_upstream, then_do}
use container_cloudlet.Forwarder.Lifecycle.{Phase, Running, Event, close_called, happen, made}

-- `*net.TCPAddr`
pub record TcpAddr : Type 0 where
  pub ip : String
  pub port : ℕ

-- A forwarder in the list, with the server address that its goroutine has called `Accept` with.
pub record Entry : Type 0 where
  pub running : Running
  pub target : Option TcpAddr

pub record ForwarderService : Type 0 where
  pub network : String
  pub client_addr : TcpAddr
  pub server_addr : TcpAddr
  pub is_ext_host : Bool
  pub fwdrs : List Entry
  pub is_suspended : Bool
  -- how many values the channel `chanSuspend` holds; it has room for one
  pub chan_suspend : ℕ
  -- whether the channel `chanClose` is closed
  pub chan_close : Bool
  pub data_rate : ℤ

abbrev started : String → TcpAddr → TcpAddr → Bool → ℤ → Option GoError → Result ForwarderService
started network client_addr server_addr is_ext_host data_rate (some e) = fail e
started network client_addr server_addr is_ext_host data_rate none = ok (record {
  network = network;
  client_addr = client_addr;
  server_addr = server_addr;
  is_ext_host = is_ext_host;
  fwdrs = [];
  is_suspended = false;
  chan_suspend = 0;
  chan_close = false;
  data_rate = data_rate;
})

-- `StartForwarderServiceDR`, with the error of `net.ListenTCP`. On success the listener runs.
unfoldable pub start_forwarder_service_dr :
    String → TcpAddr → TcpAddr → Bool → ℤ → Option GoError → Result ForwarderService
start_forwarder_service_dr network client_addr server_addr is_ext_host data_rate listen_error =
    started network client_addr server_addr is_ext_host data_rate listen_error

-- `StartForwarderService`
unfoldable pub start_forwarder_service :
    String → TcpAddr → TcpAddr → Bool → Option GoError → Result ForwarderService
unfolding start_forwarder_service_dr
start_forwarder_service network client_addr server_addr is_ext_host listen_error =
    start_forwarder_service_dr network client_addr server_addr is_ext_host (pos 0) listen_error

-- `Close`
unfoldable pub close : ForwarderService → Result ForwarderService
close p =
    if p.chan_close then panic "close of closed channel" else ok (record p { chan_close = true })

-- `Suspend` up to its wait for `chanSuspend`, and `Resume`; both wake the listener.
unfoldable pub request_suspend : ForwarderService → ForwarderService
request_suspend p = record p { is_suspended = true }

unfoldable pub resume : ForwarderService → ForwarderService
resume p = record p { is_suspended = false }

-- The call of `Close` on each forwarder, up to its wait.
abbrev pub close_entry : Entry → Result Entry
close_entry e =
    then_do (close_upstream e.running.fwdr)
      λ f. ok (record e { running = record { phase = e.running.phase; fwdr = f } })

abbrev pub close_entries : List Entry → Result (List Entry)
close_entries [] = ok []
close_entries (e ∷ es) =
    then_do (close_entry e) λ e'. then_do (close_entries es) λ es'. ok (e' ∷ es')

-- `CloseAllForwarders` up to its wait
unfoldable pub close_all_forwarders : ForwarderService → Result ForwarderService
close_all_forwarders p =
    if not p.is_suspended
    then panic "Must be suspended before CloseAllForwarders"
    else then_do (close_entries p.fwdrs) λ es. ok (record p { fwdrs = es })

unfoldable pub change_server_addr : ForwarderService → TcpAddr → Result ForwarderService
change_server_addr p a =
    if not p.is_suspended
    then panic "Must be suspended before ChangeServerAddr"
    else ok (record p { server_addr = a })

unfoldable pub change_data_rate : ForwarderService → ℤ → Result ForwarderService
change_data_rate p rate =
    if not p.is_suspended
    then panic "Must be suspended before ChangeDataRate"
    else ok (record p { data_rate = rate })

-- What `listener` does with an accepted connection, up to the goroutine that it starts.
unfoldable pub push_forwarder : ForwarderService → ForwarderService
unfolding made
push_forwarder p = record p {
  fwdrs = p.fwdrs ++ (record { running = made p.data_rate; target = none }) ∷ [];
}

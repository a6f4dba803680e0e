-- ===== src/Forwarder.antt =====
-- `Forwarder` of server/fwd.go: one client's connection and the server connection behind it.
-- Sockets are what the forwarder sets on them; a dereference of nil and a second close of a channel
-- panic. Log output is not modelled.
pub mod Stream
pub mod Copy
pub mod Lifecycle
pub mod Safety
pub mod Fires
pub mod Marks
pub mod Ending
pub mod Dial
pub mod Accepts
use container_cloudlet.Common.{
  ℕ, String, Bool, true, false, Option, none, some, ℤ, pos, is_pos, int_ltb, if◌then◌else◌,
}
use container_cloudlet.Go.{Result, ok, fail, panic}

-- `*net.TCPConn`
pub record Conn : Type 0 where
  pub read_closed : Bool
  pub closed : Bool
  pub linger_zero : Bool

abbrev pub fresh_conn : Conn
fresh_conn = record { read_closed = false; closed = false; linger_zero = false }

pub record Forwarder : Type 0 where
  pub client_conn : Option Conn
  pub server_conn : Option Conn
  pub is_up_closed : Bool
  pub is_down_closed : Bool
  -- whether the channel `chanClosed` is closed
  pub chan_closed : Bool
  pub data_rate : ℤ
  -- the channel, if it was made, and whether it is closed
  pub chan_emergency_close : Option Bool

unfoldable pub new_forwarder : Forwarder
new_forwarder = record {
  client_conn = none;
  server_conn = none;
  is_up_closed = false;
  is_down_closed = false;
  chan_closed = false;
  data_rate = pos 0;
  chan_emergency_close = none;
}

abbrev set_linger : Option Conn → Option Conn
set_linger none = none
set_linger (some c) = some (record c { linger_zero = true })

unfoldable pub set_data_rate : Forwarder → ℤ → Forwarder
set_data_rate p rate =
    if is_pos rate
    then record p { data_rate = rate; client_conn = set_linger p.client_conn }
    else record p { data_rate = rate }

-- A method on a connection that may be nil.
abbrev on_conn : Option Conn → (Conn → Conn) → Result (Option Conn)
on_conn none f = panic "nil pointer dereference"
on_conn (some c) f = ok (some (f c))

abbrev close_read : Conn → Conn
close_read c = record c { read_closed = true }

abbrev close_conn : Conn → Conn
close_conn c = record c { closed = true }

-- `close(ch)`, of a channel that is not nil
abbrev close_chan : Option Bool → Result (Option Bool)
close_chan none = ok none
close_chan (some false) = ok (some true)
close_chan (some true) = panic "close of closed channel"

abbrev pub then_do : {A B : Type 0} → Result A → (A → Result B) → Result B
then_do (ok a) f = f a
then_do (fail e) f = fail e
then_do (panic m) f = panic m

-- `closeUpstream`
unfoldable pub close_upstream : Forwarder → Result Forwarder
close_upstream p =
    if p.is_up_closed
    then ok p
    else then_do (close_chan p.chan_emergency_close) λ ch.
      then_do (on_conn p.client_conn close_read)
        λ c. ok (record p { chan_emergency_close = ch; client_conn = c; is_up_closed = true })

-- `closeDownstream`
unfoldable pub close_downstream : Forwarder → Result Forwarder
close_downstream p =
    if p.is_down_closed
    then ok p
    else then_do (on_conn p.server_conn close_read)
        λ c. ok (record p { server_conn = c; is_down_closed = true })

-- `Accept` up to its call of `dialTCP`
unfoldable pub accept_client : Forwarder → Conn → Forwarder
accept_client p client =
    if is_pos p.data_rate
    then record p {
      client_conn = some (record client { linger_zero = true });
      chan_emergency_close = some false;
    }
    else record p { client_conn = some client }

-- `close(p.chanClosed)`, which is deferred
abbrev signal_closed : Forwarder → Result Forwarder
signal_closed p =
    if p.chan_closed then panic "close of closed channel" else ok (record p { chan_closed = true })

-- `Accept` after `dialTCP` failed
unfoldable pub dial_failed : Forwarder → Result Forwarder
dial_failed p =
    then_do (on_conn p.client_conn close_conn) λ c. signal_closed (record p { client_conn = c })

-- `Accept` after `dialTCP` gave a connection
unfoldable pub dialled : Forwarder → Conn → Forwarder
dialled p server = record p { server_conn = some server }

-- `Accept` after both streams have finished
unfoldable pub streams_finished : Forwarder → Result Forwarder
streams_finished p = then_do (on_conn p.client_conn close_conn) λ c.
    then_do (on_conn p.server_conn close_conn)
      λ s. signal_closed (record p { client_conn = c; server_conn = s })

-- `MinInt`
unfoldable pub min_int : ℤ → ℤ → ℤ
min_int a b = if int_ltb a b then a else b

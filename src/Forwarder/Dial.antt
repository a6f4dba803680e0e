-- ===== src/Forwarder/Dial.antt =====
-- `dialTCP` and `Accept` of server/fwd.go with the network, and `Close` with its wait.
use Prim.Native.String.{◌++◌}
use container_cloudlet.Common.{String, true, Option, none, some, ◌==◌, string_eq, if◌then◌else◌}
use container_cloudlet.Go.{GoError, Result, ok, fail, panic, Try, answer}
use container_cloudlet.Forwarder.{Conn, Forwarder, accept_client, dial_failed, dialled}
use container_cloudlet.Forwarder.Lifecycle.{finished, streaming, Running, moved}

-- The network, with addresses `A` of its own.
pub record DialEnv (W A : Type 0) : Type 0 where
  pub resolve_tcp_addr : String → String → W → (Option GoError × A) × W
  -- `net.DialTCP(network, laddr, raddr)`, where `laddr` may be nil
  pub dial_tcp : String → Option A → A → W → (Option GoError × Conn) × W

-- `Accept` behind `dialTCP`.
abbrev pub dialled_with : Forwarder → Result Conn → Result Running
dialled_with p (ok c) = ok (record { phase = streaming true true; fwdr = dialled p c })
dialled_with p (fail e) = moved finished (dial_failed p)
dialled_with p (panic m) = panic m

module _ {W A : Type 0} (env : DialEnv W A) where
  abbrev local_answer : (Option GoError × A) × W → Option A × W
  local_answer ((none, a), w) = (some a, w)
  local_answer ((some e, a), w) = (none, w)

  -- `laddr`: an address on the gateway's interface, if there is one and it can be resolved.
  unfoldable pub local_addr : String → String → W → Option A × W
  local_addr gateway_addr network w =
      if gateway_addr == ""
      then (none, w)
      else local_answer (env.resolve_tcp_addr network (gateway_addr ++ ":0") w)

  unfoldable pub dial_tcp : String → String → A → Try W Conn
  unfolding local_addr
  dial_tcp gateway_addr network server_addr w =
      let (laddr, w') = local_addr gateway_addr network w in
      answer (env.dial_tcp network laddr server_addr) w'

  -- `Accept` until its streams run, or its return if there is no connection to the server.
  unfoldable pub accept : String → String → A → Forwarder → Conn → W → Result Running × W
  unfolding dial_tcp
  accept gateway_addr network server_addr p client w =
      let (r, w') = dial_tcp gateway_addr network server_addr w in
      (dialled_with (accept_client p client) r, w')

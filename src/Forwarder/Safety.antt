-- ===== src/Forwarder/Safety.antt =====
-- What holds of a forwarder (server/fwd.go) in every state that it can reach.
use container_cloudlet.Common.{
  ◌≡◌, ◌≢◌, refl, true, false, not, Option, none, some, ℤ, arith, ◌⊎◌, String, subst,
}
use container_cloudlet.Go.{ok, panic}
use container_cloudlet.Forwarder.{
  Conn, Forwarder, new_forwarder, set_data_rate, close_upstream, close_downstream, accept_client,
  dial_failed, dialled, streams_finished,
}
use container_cloudlet.Forwarder.Lifecycle.{
  Phase, created, dialling, streaming, finished, Running, Event, accepts, dial_fails, upstream_ends,
  both_ended, close_called, happen, made, Reach, here, next,
}

-- The emergency channel is closed together with the upstream side.
abbrev InStep : Forwarder → Type 0
InStep p = (p.chan_emergency_close ≡ none) ⊎ (p.chan_emergency_close ≡ some p.is_up_closed)

abbrev pub Released : Option Conn → Type 0
Released none = Unit
Released (some c) = c.closed ≡ true

-- By where `Accept` stands.
abbrev pub Inv : Phase → Forwarder → Type 0
Inv created p =
    (p.client_conn ≡ none)
    × (p.server_conn ≡ none)
    × (p.is_up_closed ≡ false)
    × (p.is_down_closed ≡ false)
    × (p.chan_closed ≡ false)
    × (p.chan_emergency_close ≡ none)
Inv dialling p =
    (p.client_conn ≢ none)
    × (p.server_conn ≡ none)
    × (p.is_down_closed ≡ false)
    × (p.chan_closed ≡ false)
    × InStep p
Inv (streaming up down) p =
    (p.client_conn ≢ none)
    × (p.server_conn ≢ none)
    × (p.is_down_closed ≡ not up)
    × (p.chan_closed ≡ false)
    × (down ≡ false → p.is_up_closed ≡ true)
    × InStep p
Inv finished p =
    (p.client_conn ≢ none)
    × (p.chan_closed ≡ true)
    × Released p.client_conn
    × Released p.server_conn
    × InStep p

happen-Inv :
    (ph : Phase) (p : Forwarder) (e : Event) (s : Running)
    → Inv ph p
    → happen ph p e ≡ some (ok s)
    → Inv s.phase s.fwdr
unfolding close_upstream close_downstream accept_client dial_failed dialled streams_finished
happen-Inv created p (accepts c) s v h = ground arith
happen-Inv created p _ s v h = ground arith
happen-Inv dialling p dial_fails s v h = ground arith
happen-Inv dialling p _ s v h = ground arith
happen-Inv finished p close_called s v h = ground arith
happen-Inv finished p _ s v h = ground arith
happen-Inv (streaming true true) p upstream_ends s v h = ground arith
happen-Inv (streaming true true) p _ s v h = ground arith
happen-Inv (streaming true false) p upstream_ends s v h = ground arith
happen-Inv (streaming true false) p _ s v h = ground arith
happen-Inv (streaming false true) p upstream_ends s v h = ground arith
happen-Inv (streaming false true) p _ s v h = ground arith
happen-Inv (streaming false false) p both_ended s v h = ground arith
happen-Inv (streaming false false) p _ s v h = ground arith

pub Reach-Inv : {rate : ℤ} {r : Running} → Reach rate r → Inv r.phase r.fwdr
unfolding made new_forwarder set_data_rate
Reach-Inv here = ground arith
Reach-Inv (next r e {s} reach h) = happen-Inv r.phase r.fwdr e s (Reach-Inv reach) h

happen_returns :
    (ph : Phase) (p : Forwarder) (e : Event) (m : String)
    → Inv ph p
    → ph ≢ created
    → happen ph p e ≢ some (panic m)
unfolding close_upstream close_downstream accept_client dial_failed dialled streams_finished
happen_returns created p e m v n h = n refl
happen_returns dialling p dial_fails m v n h = ground arith
happen_returns dialling p _ m v n h = ground arith
happen_returns finished p close_called m v n h = ground arith
happen_returns finished p _ m v n h = ground arith
happen_returns (streaming true true) p upstream_ends m v n h = ground arith
happen_returns (streaming true true) p _ m v n h = ground arith
happen_returns (streaming true false) p upstream_ends m v n h = ground arith
happen_returns (streaming true false) p _ m v n h = ground arith
happen_returns (streaming false true) p upstream_ends m v n h = ground arith
happen_returns (streaming false true) p _ m v n h = ground arith
happen_returns (streaming false false) p both_ended m v n h = ground arith
happen_returns (streaming false false) p _ m v n h = ground arith

-- Once `Accept` has been called, no order of its two streams' ends, of `dialTCP`, and of any number
-- of calls of `Close` makes the forwarder dereference nil or close a channel twice.
pub reach-no_panic :
    {rate : ℤ} {r : Running}
    → Reach rate r
    → r.phase ≢ created
    → (e : Event) (m : String) → happen r.phase r.fwdr e ≢ some (panic m)
reach-no_panic {r} reach n e m = happen_returns r.phase r.fwdr e m (Reach-Inv reach) n

early_close :
    (p : Forwarder)
    → Inv created p
    → happen created p close_called ≡ some (panic "nil pointer dereference")
unfolding close_upstream
early_close p v = ground arith

-- A `Close` that comes before `Accept` was called panics, at every data rate: `clientConn` is nil.
pub close_before_accept :
    (rate : ℤ) (r : Running)
    → Reach rate r
    → r.phase ≡ created
    → happen r.phase r.fwdr close_called ≡ some (panic "nil pointer dereference")
close_before_accept rate r reach e =
    rw e (early_close r.fwdr (subst (λ x. Inv x r.fwdr) e (Reach-Inv reach)))

-- When `Accept` has returned, the client's connection is closed, the server's too if there is one,
-- and whoever waits in `Close` is released.
pub finished-Released :
    {rate : ℤ} {r : Running}
    → Reach rate r
    → r.phase ≡ finished
    → (r.fwdr.chan_closed ≡ true)
      × (r.fwdr.client_conn ≢ none)
      × Released r.fwdr.client_conn
      × Released r.fwdr.server_conn
finished-Released {r} reach e =
    let v : Inv finished r.fwdr = subst (λ x. Inv x r.fwdr) e (Reach-Inv reach) in
    (v.1, v.0, v.2, v.3)

closed-Inv : (ph : Phase) (p : Forwarder) → Inv ph p → p.chan_closed ≡ true → ph ≡ finished
closed-Inv created p v h = let e = v.4 in cc
closed-Inv dialling p v h = let e = v.3 in cc
closed-Inv (streaming up down) p v h = let e = v.3 in cc
closed-Inv finished p v h = refl

-- The channel `chanClosed` is closed only by the return of `Accept`.
pub closed_finished :
    {rate : ℤ} {r : Running} → Reach rate r → r.fwdr.chan_closed ≡ true → r.phase ≡ finished
closed_finished {r = r} reach h = closed-Inv r.phase r.fwdr (Reach-Inv reach) h

-- Before `Accept` nobody has signalled its end.
pub created_open :
    {rate : ℤ} {r : Running} → Reach rate r → r.phase ≡ created → r.fwdr.chan_closed ≡ false
created_open {r} reach e =
    let v : Inv created r.fwdr = subst (λ x. Inv x r.fwdr) e (Reach-Inv reach) in v.4

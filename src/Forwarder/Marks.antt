-- ===== src/Forwarder/Marks.antt =====
-- What the events of a forwarder of server/fwd.go leave closed, and the phases that they lead to.
use container_cloudlet.Common.{
  ◌≡◌, ◌≢◌, refl, subst, ◌⊎◌, inl, inr, true, false, Option, none, some, ℤ, arith,
}
use container_cloudlet.Go.{ok}
use container_cloudlet.Forwarder.{
  Conn, Forwarder, new_forwarder, set_data_rate, close_upstream, close_downstream, accept_client,
  dial_failed, dialled, streams_finished,
}
use container_cloudlet.Forwarder.Lifecycle.{
  Phase, created, dialling, streaming, finished, Running, Event, accepts, dial_fails, dials,
  both_ended, close_called, happen, made, Reach, here, next,
}
use container_cloudlet.Forwarder.Safety.{Inv, Reach-Inv}

-- The connection is closed for reading, so a `Read` from it returns.
abbrev pub Drained : Option Conn → Type 0
Drained none = ⊥
Drained (some c) = c.read_closed ≡ true

-- A side that is marked closed is closed for reading.
abbrev pub Marks : Forwarder → Type 0
Marks p =
    (p.is_up_closed ≡ true → Drained p.client_conn)
    × (p.is_down_closed ≡ true → Drained p.server_conn)

happen-Marks :
    (ph : Phase) (p : Forwarder) (e : Event) (s : Running)
    → Inv ph p
    → Marks p
    → happen ph p e ≡ some (ok s)
    → Marks s.fwdr
unfolding close_upstream close_downstream accept_client dial_failed dialled streams_finished
happen-Marks created p (accepts c) s v m h = ground arith
happen-Marks created p close_called s v m h = ground arith
happen-Marks created p _ s v m h = ground arith
happen-Marks dialling p dial_fails s v m h = ground arith
happen-Marks dialling p (dials c) s v m h = ground arith
happen-Marks dialling p close_called s v m h = ground arith
happen-Marks dialling p _ s v m h = ground arith
happen-Marks finished p close_called s v m h = ground arith
happen-Marks finished p _ s v m h = ground arith
happen-Marks (streaming true true) p _ s v m h = ground arith
happen-Marks (streaming true false) p _ s v m h = ground arith
happen-Marks (streaming false true) p _ s v m h = ground arith
happen-Marks (streaming false false) p both_ended s v m h = ground arith
happen-Marks (streaming false false) p _ s v m h = ground arith

pub Reach-Marks : {rate : ℤ} {r : Running} → Reach rate r → Marks r.fwdr
unfolding made new_forwarder set_data_rate
Reach-Marks here = ground arith
Reach-Marks (next r e {s} reach h) =
    happen-Marks r.phase r.fwdr e s (Reach-Inv reach) (Reach-Marks reach) h

pub happen-up_closed :
    (ph : Phase) (p : Forwarder) (e : Event) (s : Running)
    → p.is_up_closed ≡ true
    → happen ph p e ≡ some (ok s)
    → s.fwdr.is_up_closed ≡ true
unfolding close_upstream close_downstream accept_client dial_failed dialled streams_finished
happen-up_closed created p (accepts c) s v h = ground arith
happen-up_closed created p _ s v h = ground arith
happen-up_closed dialling p _ s v h = ground arith
happen-up_closed finished p _ s v h = ground arith
happen-up_closed (streaming true true) p _ s v h = ground arith
happen-up_closed (streaming true false) p _ s v h = ground arith
happen-up_closed (streaming false true) p _ s v h = ground arith
happen-up_closed (streaming false false) p _ s v h = ground arith

-- Where an event leads that is no call of `Close`.
abbrev pub After : Phase → Phase → Type 0
After created q = q ≡ dialling
After dialling q = (q ≡ finished) ⊎ (q ≡ streaming true true)
After (streaming true true) q = (q ≡ streaming false true) ⊎ (q ≡ streaming true false)
After (streaming true false) q = q ≡ streaming false false
After (streaming false true) q = q ≡ streaming false false
After (streaming false false) q = q ≡ finished
After finished q = ⊥

pub happen-After :
    (ph : Phase) (p : Forwarder) (e : Event) (s : Running)
    → e ≢ close_called
    → happen ph p e ≡ some (ok s)
    → After ph s.phase
unfolding close_upstream close_downstream accept_client dial_failed dialled streams_finished
happen-After ph p close_called s n h = absurd (n refl)
happen-After created p (accepts c) s n h = ground arith
happen-After created p _ s n h = ground arith
happen-After dialling p _ s n h = ground arith
happen-After finished p _ s n h = ground arith
happen-After (streaming true true) p _ s n h = ground arith
happen-After (streaming true false) p _ s n h = ground arith
happen-After (streaming false true) p _ s n h = ground arith
happen-After (streaming false false) p _ s n h = ground arith

pub After-at :
    (r : Running) (ph : Phase) (f : Event) (t : Running)
    → r.phase ≡ ph
    → f ≢ close_called
    → happen r.phase r.fwdr f ≡ some (ok t)
    → After ph t.phase
After-at r ph f t q n h = subst (λ p. After p t.phase) q (happen-After r.phase r.fwdr f t n h)

pub After-begun : (ph q : Phase) → After ph q → q ≢ created
After-begun created q e = λ k. cc
After-begun dialling q (inl e) = λ k. cc
After-begun dialling q (inr e) = λ k. cc
After-begun (streaming true true) q (inl e) = λ k. cc
After-begun (streaming true true) q (inr e) = λ k. cc
After-begun (streaming true false) q e = λ k. cc
After-begun (streaming false true) q e = λ k. cc
After-begun (streaming false false) q e = λ k. cc
After-begun finished q e = λ k. absurd e

pub close-marks :
    (ph : Phase) (p : Forwarder) (s : Running)
    → Inv ph p
    → happen ph p close_called ≡ some (ok s)
    → (s.phase ≢ created) × (s.fwdr.is_up_closed ≡ true)
unfolding close_upstream
close-marks created p s v h = ground arith
close-marks dialling p s v h = ground arith
close-marks finished p s v h = ground arith
close-marks (streaming true true) p s v h = ground arith
close-marks (streaming true false) p s v h = ground arith
close-marks (streaming false true) p s v h = ground arith
close-marks (streaming false false) p s v h = ground arith

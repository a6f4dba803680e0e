-- ===== src/Forwarder/Fires.antt =====
-- That an event of a forwarder of server/fwd.go that can happen leads to a state.
use container_cloudlet.Common.{String, ◌≡◌, ◌≢◌, refl, ap, ◌∙◌, true, false, some, ℤ, arith}
use container_cloudlet.Go.{GoError, Result, ok, fail, panic}
use container_cloudlet.Forwarder.{
  Forwarder, close_upstream, close_downstream, dial_failed, streams_finished,
}
use container_cloudlet.Forwarder.Lifecycle.{
  Phase, created, dialling, streaming, finished, Running, Event, dial_fails, upstream_ends,
  both_ended, close_called, happen, moved, Reach,
}
use container_cloudlet.Forwarder.Safety.{reach-no_panic}

happen_no_fail :
    (ph : Phase) (p : Forwarder) (ev : Event) (x : GoError) → happen ph p ev ≢ some (fail x)
unfolding close_upstream close_downstream dial_failed streams_finished
happen_no_fail created p close_called x = λ h. ground arith
happen_no_fail created p _ x = λ h. ground arith
happen_no_fail dialling p dial_fails x = λ h. ground arith
happen_no_fail dialling p _ x = λ h. ground arith
happen_no_fail finished p close_called x = λ h. ground arith
happen_no_fail finished p _ x = λ h. ground arith
happen_no_fail (streaming true true) p upstream_ends x = λ h. ground arith
happen_no_fail (streaming true true) p _ x = λ h. ground arith
happen_no_fail (streaming true false) p upstream_ends x = λ h. ground arith
happen_no_fail (streaming true false) p _ x = λ h. ground arith
happen_no_fail (streaming false true) p upstream_ends x = λ h. ground arith
happen_no_fail (streaming false true) p _ x = λ h. ground arith
happen_no_fail (streaming false false) p both_ended x = λ h. ground arith
happen_no_fail (streaming false false) p _ x = λ h. ground arith

moved-eq-ok :
    (ph : Phase) (r : Result Forwarder)
    → ((x : GoError) → moved ph r ≢ fail x)
    → ((m : String) → moved ph r ≢ panic m)
    → (s : Running) × (moved ph r ≡ ok s) × (s.phase ≡ ph)
moved-eq-ok ph (ok f) n k = (_, refl, refl)
moved-eq-ok ph (fail x) n k = absurd (n x refl)
moved-eq-ok ph (panic m) n k = absurd (k m refl)

-- An event of a forwarder that moves it to the phase `ph`.
pub fires :
    (rate : ℤ) (r : Running) (ev : Event) (ph : Phase) (x : Result Forwarder)
    → Reach rate r
    → r.phase ≢ created
    → happen r.phase r.fwdr ev ≡ some (moved ph x)
    → (s : Running) × (happen r.phase r.fwdr ev ≡ some (ok s)) × (s.phase ≡ ph)
fires rate r ev ph x l n h =
    let (s, e, k) =
      moved-eq-ok ph x (λ y f. happen_no_fail r.phase r.fwdr ev y (h ∙ ap some f))
        (λ m f. reach-no_panic l n ev m (h ∙ ap some f)) in
    (s, h ∙ ap some e, k)

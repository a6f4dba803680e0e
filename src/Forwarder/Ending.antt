-- ===== src/Forwarder/Ending.antt =====
-- That `Close` of server/fwd.go returns: what the forwarder's own goroutines do once it was called.
use container_cloudlet.Common.{ap, ◌≡◌, ◌≢◌, refl, subst, ◌∙◌, inl, inr, true, false, some, ℤ}
use container_cloudlet.Go.{Result, ok}
use container_cloudlet.Forwarder.{
  Conn, Forwarder, close_upstream, close_downstream, dial_failed, streams_finished,
}
use container_cloudlet.Forwarder.Lifecycle.{
  Phase, created, dialling, streaming, finished, Running, Event, dial_fails, dials, upstream_ends,
  downstream_ends, both_ended, close_called, happen, moved, Reach, next,
}
use container_cloudlet.Forwarder.Safety.{Inv, Reach-Inv, finished-Released}
use container_cloudlet.Forwarder.Fires.{fires}
use container_cloudlet.Forwarder.Marks.{
  Drained, Reach-Marks, happen-up_closed, After, happen-After, After-at, After-begun, close-marks,
}

-- What the goroutines of a forwarder come to even if the client and the server do nothing: `dialTCP`
-- returns, one way or the other, and a stream ends when the connection that it reads from is closed for
-- reading, where its writes return.
pub data Own (p : Forwarder) : Event → Type 0 where
  own_dial_fails : Own p dial_fails
  own_dials : (c : Conn) → Own p (dials c)
  own_upstream : Drained p.client_conn → Own p upstream_ends
  own_downstream : Drained p.server_conn → Own p downstream_ends
  own_both : Own p both_ended

-- Each run ends, and with `Accept` returned and `chanClosed` closed: where it has not, the goroutines come to
-- some event, and each event that can happen leads on, also those of the client and the server; of calls
-- of `Close`, which leave a run where it is, there is no count.
pub data Inevitable : Running → Type 0 where
  over : {r : Running} → r.phase ≡ finished → r.fwdr.chan_closed ≡ true → Inevitable r
  onward :
      {r : Running} (e : Event) (s : Running)
      → Own r.fwdr e
      → happen r.phase r.fwdr e ≡ some (ok s)
      → ((f : Event) (t : Running)
          → f ≢ close_called
          → happen r.phase r.fwdr f ≡ some (ok t)
          → Inevitable t)
      → Inevitable r

-- `Close` was called, and `Accept` before.
abbrev IsClosing : ℤ → Running → Type 0
IsClosing rate r = Reach rate r × (r.phase ≢ created) × (r.fwdr.is_up_closed ≡ true)

module _ {rate : ℤ} where
  finished-Inevitable : (r : Running) → Reach rate r → r.phase ≡ finished → Inevitable r
  finished-Inevitable r reach e = let v = finished-Released reach e in over e v.0

  next-IsClosing :
      (r : Running) (e : Event) (s : Running)
      → IsClosing rate r
      → e ≢ close_called
      → happen r.phase r.fwdr e ≡ some (ok s)
      → IsClosing rate s
  next-IsClosing r e s (reach, n, u) d h = (
    next r e reach h,
    After-begun r.phase s.phase (happen-After r.phase r.fwdr e s d h),
    happen-up_closed r.phase r.fwdr e s u h,
  )

  -- Where some own event can happen, and what is behind any event ends.
  leads_on :
      (r : Running) (ph : Phase) (e : Event) (to : Phase) (x : Result Forwarder)
      → IsClosing rate r
      → r.phase ≡ ph
      → Own r.fwdr e
      → happen ph r.fwdr e ≡ some (moved to x)
      → ((t : Running) → IsClosing rate t → After ph t.phase → Inevitable t)
      → Inevitable r
  leads_on r ph e to x c q o h k =
      let (s, p, _) = fires rate r e to x c.0 c.1 (ap (λ y. happen y r.fwdr e) q ∙ h) in
      onward e s o p (λ f t n g. k t (next-IsClosing r f t c n g) (After-at r ph f t q n g))

  ended-Inevitable :
      (r : Running) → IsClosing rate r → r.phase ≡ streaming false false → Inevitable r
  ended-Inevitable r c q =
      leads_on r (streaming false false) both_ended finished (streams_finished r.fwdr) c q own_both
        refl (λ t d a. finished-Inevitable t d.0 a)

  up-Inevitable : (r : Running) → IsClosing rate r → r.phase ≡ streaming true false → Inevitable r
  up-Inevitable r c q =
      leads_on r (streaming true false) upstream_ends (streaming false false)
        (close_downstream r.fwdr) c q (own_upstream ((Reach-Marks c.0).0 c.2)) refl
        (λ t d a. ended-Inevitable t d a)

  down-Inevitable : (r : Running) → IsClosing rate r → r.phase ≡ streaming false true → Inevitable r
  down-Inevitable r c q =
      let v = subst (λ y. Inv y r.fwdr) q (Reach-Inv c.0) in
      leads_on r (streaming false true) downstream_ends (streaming false false)
        (close_upstream r.fwdr) c q (own_downstream ((Reach-Marks c.0).1 v.2)) refl
        (λ t d a. ended-Inevitable t d a)

  both-Inevitable : (r : Running) → IsClosing rate r → r.phase ≡ streaming true true → Inevitable r
  both-Inevitable r c q =
      leads_on r (streaming true true) upstream_ends (streaming false true)
        (close_downstream r.fwdr) c q (own_upstream ((Reach-Marks c.0).0 c.2)) refl
        (λ t d a. elim a [ inl e ↦ down-Inevitable t d e | inr e ↦ up-Inevitable t d e ])

  dialling-Inevitable : (r : Running) → IsClosing rate r → r.phase ≡ dialling → Inevitable r
  dialling-Inevitable r c q =
      leads_on r dialling dial_fails finished (dial_failed r.fwdr) c q own_dial_fails refl
        (λ t d a. elim a [ inl e ↦ finished-Inevitable t d.0 e | inr e ↦ both-Inevitable t d e ])

  closing-Inevitable : (ph : Phase) (r : Running) → IsClosing rate r → r.phase ≡ ph → Inevitable r
  closing-Inevitable created r c q = absurd (c.1 q)
  closing-Inevitable dialling r c q = dialling-Inevitable r c q
  closing-Inevitable finished r c q = finished-Inevitable r c.0 q
  closing-Inevitable (streaming true true) r c q = both-Inevitable r c q
  closing-Inevitable (streaming true false) r c q = up-Inevitable r c q
  closing-Inevitable (streaming false true) r c q = down-Inevitable r c q
  closing-Inevitable (streaming false false) r c q = ended-Inevitable r c q

  -- Behind a call of `Close` that did not panic, in any state of a forwarder, and where the writes of its
  -- streams return, `Accept` returns and `chanClosed` is closed, so that the call does not wait for ever,
  -- whatever the client and the server send or end: as long as `Accept` has not returned, `dialTCP` is to
  -- return, a stream is to end whose connection is closed for reading, or `wg.Wait` is to return, and
  -- whatever comes other than calls of `Close`, only finitely many such events come before that end.
  pub close-Inevitable :
      {r s : Running}
      → Reach rate r
      → happen r.phase r.fwdr close_called ≡ some (ok s)
      → Inevitable s
  close-Inevitable {r} {s} reach h =
      let (n, u) = close-marks r.phase r.fwdr s (Reach-Inv reach) h in
      closing-Inevitable s.phase s (next r close_called reach h, n, u) refl

-- ===== src/Forwarder/Accepts.antt =====
-- `Accept` of server/fwd.go as a whole, against the events of a forwarder's life.
use container_cloudlet.Common.{
  String, ◌≡◌, ◌≢◌, refl, sym, ap, subst, ◌∙◌, true, false, some, ℤ, ◌⊎◌, inl, inr, arith, is_pos,
  if◌then◌else◌,
}
use container_cloudlet.Go.{Result, ok, fail, panic, answer}
use container_cloudlet.Forwarder.{Conn, Forwarder, accept_client, dial_failed}
use container_cloudlet.Forwarder.Lifecycle.{
  created, dialling, finished, streaming, Running, accepts, dial_fails, dials, moved, happen, Reach,
  next,
}
use container_cloudlet.Forwarder.Safety.{Released, created_open, finished-Released}
use container_cloudlet.Forwarder.Dial.{DialEnv, dial_tcp, dialled_with, accept}

-- The streams run, or `Accept` has returned and let go of the client.
abbrev pub IsUnderWay : Running → Type 0
IsUnderWay s =
    (s.phase ≡ streaming true true)
    ⊎ ((s.phase ≡ finished) × Released s.fwdr.client_conn × (s.fwdr.chan_closed ≡ true))

-- A state to which the result leads, and the forwarder is under way there.
abbrev pub LeadsOn : ℤ → Result Running → Type 0
LeadsOn rate r = (s : Running) × (r ≡ ok s) × Reach rate s × IsUnderWay s

let_go :
    (p : Forwarder) (c : Conn)
    → p.client_conn ≡ some c
    → p.chan_closed ≡ false
    → (q : Forwarder) × (dial_failed p ≡ ok q)
unfolding dial_failed
let_go p c e h =
    (record p { client_conn = some (record c { closed = true }); chan_closed = true }, ground arith)

accept_client-conn :
    (p : Forwarder) (c : Conn)
    → (accept_client p c).client_conn
      ≡ some (if is_pos p.data_rate then record c { linger_zero = true } else c)
unfolding accept_client
accept_client-conn p c = ground arith

accept_client-chan_closed :
    (p : Forwarder) (c : Conn) → (accept_client p c).chan_closed ≡ p.chan_closed
unfolding accept_client
accept_client-chan_closed p c = ground arith

module _ {rate : ℤ} {r : Running} (reach : Reach rate r) (e : r.phase ≡ created) (c : Conn) where
  abbrev begun : Running
  begun = record { phase = dialling; fwdr = accept_client r.fwdr c }

  begun-Reach : Reach rate begun
  begun-Reach =
      next r (accepts c) reach
        (subst (λ ph. happen ph r.fwdr (accepts c) ≡ some (ok begun)) (sym e) refl)

  failed-LeadsOn : LeadsOn rate (moved finished (dial_failed begun.fwdr))
  failed-LeadsOn =
      let (q, h) =
        let_go begun.fwdr _ (accept_client-conn r.fwdr c)
          (accept_client-chan_closed r.fwdr c ∙ created_open reach e) in
      let s : Running = record { phase = finished; fwdr = q } in
      let m : moved finished (dial_failed begun.fwdr) ≡ ok s = ap (moved finished) h in
      let reached : Reach rate s = next begun dial_fails begun-Reach (ap some m) in
      let v = finished-Released reached refl in (s, m, reached, inr (refl, v.2, v.0))

  dialled_with-LeadsOn :
      (d : Result Conn) → ((m : String) → d ≢ panic m) → LeadsOn rate (dialled_with begun.fwdr d)
  dialled_with-LeadsOn (ok s) n = (_, refl, next begun (dials s) begun-Reach refl, inl refl)
  dialled_with-LeadsOn (fail x) n = failed-LeadsOn
  dialled_with-LeadsOn (panic m) n = absurd (n m refl)

module _ {W A : Type 0} (env : DialEnv W A) where
  dial_tcp-returns :
      (gateway_addr network : String) (addr : A) (w : W) (m : String)
      → (dial_tcp env gateway_addr network addr w).0 ≢ panic m
  unfolding dial_tcp answer
  dial_tcp-returns gateway_addr network addr w m = λ h. ground arith

  -- A call of `Accept` on a forwarder on which it was not called yet, whatever was called before and
  -- whatever the network answers: it does not panic, and it leads to a state of the forwarder's life in
  -- which either both streams run, or it has returned, the client's connection is closed, and whoever
  -- waits in `Close` is released.
  pub accept-LeadsOn :
      {rate : ℤ} {r : Running} (gateway_addr network : String) (addr : A) (c : Conn) (w : W)
      → Reach rate r
      → r.phase ≡ created
      → LeadsOn rate (accept env gateway_addr network addr r.fwdr c w).0
  unfolding accept
  accept-LeadsOn {r} gateway_addr network addr c w reach e =
      dialled_with-LeadsOn reach e c (dial_tcp env gateway_addr network addr w).0
        (dial_tcp-returns gateway_addr network addr w)

-- ===== src/FwdSvc/Progress.antt =====
-- How the forwarders of server/fwdsvc.go come to their ends.
use container_cloudlet.Common.{
  ◌≡◌, ◌≢◌, refl, subst, sym, ◌∙◌, Bool, true, false, some, List, [], ◌∷◌,
}
use container_cloudlet.Go.{Result, ok}
use container_cloudlet.Forwarder.{
  Forwarder, fresh_conn, close_upstream, close_downstream, dial_failed, streams_finished,
  accept_client,
}
use container_cloudlet.Forwarder.Lifecycle
use container_cloudlet.Forwarder.Lifecycle.{
  Phase, created, dialling, streaming, finished, Running, Event, accepts, dial_fails, dials,
  upstream_ends, downstream_ends, both_ended, close_called, happen, moved,
}
use container_cloudlet.Forwarder.Fires.{fires}
use container_cloudlet.FwdSvc.{Entry, TcpAddr}
use container_cloudlet.FwdSvc.System.{
  Change, moves, later, AllFinished, target_after, System, forwards, Reach, here, next,
}
use container_cloudlet.FwdSvc.Lives.{Lives, AllLive}

-- Any number of moves of the forwarders.
pub data Changes (a : TcpAddr) (es : List Entry) : List Entry → Type 0 where
  stay : Changes a es es
  more : {fs gs : List Entry} → Changes a es fs → Change a fs gs → Changes a es gs

module _ {a : TcpAddr} where
  pub Changes-later :
      (e : Entry) {es fs : List Entry} → Changes a es fs → Changes a (e ∷ es) (e ∷ fs)
  Changes-later e stay = stay
  Changes-later e (more c d) = more (Changes-later e c) (later e d)

  pub Changes-trans : {es fs gs : List Entry} → Changes a es fs → Changes a fs gs → Changes a es gs
  Changes-trans c stay = c
  Changes-trans c (more d e) = more (Changes-trans c d) e

-- The forwarder at the head of the list comes to the phase `ph`.
abbrev Comes : TcpAddr → List Entry → Phase → Entry → Type 0
Comes a es ph e = (f : Entry) × Changes a (e ∷ es) (f ∷ es) × Lives f × (f.running.phase ≡ ph)

module _ (a : TcpAddr) (es : List Entry) where
  comes :
      (e : Entry) (ev : Event) (ph : Phase) (x : Result Forwarder)
      → Lives e
      → e.running.phase ≢ created
      → happen e.running.phase e.running.fwdr ev ≡ some (moved ph x)
      → Comes a es ph e
  comes e ev ph x (rate, l) n h =
      let (s, k, p) = fires rate e.running ev ph x l n h in
      (
        record { running = s; target = target_after a ev e.target },
        more stay (moves e ev k),
        (rate, Lifecycle.next e.running ev l k),
        p,
      )

  then-Comes :
      (e : Entry) (ph ph' : Phase)
      → Comes a es ph e
      → ((f : Entry) → Lives f → f.running.phase ≡ ph → Comes a es ph' f)
      → Comes a es ph' e
  then-Comes e ph ph' (f, c, l, p) k = let (g, d, m, q) = k f l p in (g, Changes-trans c d, m, q)

  -- The same from a phase that is known.
  Comes-from :
      (ph : Phase) (e : Entry) (ev : Event) (ph' : Phase) (x : Result Forwarder)
      → ph ≢ created
      → happen ph e.running.fwdr ev ≡ some (moved ph' x)
      → Lives e
      → e.running.phase ≡ ph
      → Comes a es ph' e
  Comes-from ph e ev ph' x n h l p =
      comes e ev ph' x l (λ c. n (sym p ∙ c))
        (subst (λ q. happen q e.running.fwdr ev ≡ some (moved ph' x)) (sym p) h)

  ends : (e : Entry) → Lives e → e.running.phase ≡ streaming false false → Comes a es finished e
  ends e = Comes-from _ e both_ended finished (streams_finished e.running.fwdr) (λ h. cc) refl

  up_ends : (e : Entry) → Lives e → e.running.phase ≡ streaming true false → Comes a es finished e
  up_ends e l p =
      let f = close_downstream e.running.fwdr in
      then-Comes e (streaming false false) finished
        (Comes-from (streaming true false) e upstream_ends (streaming false false) f (λ h. cc) refl
          l p)
        ends

  down_ends :
      (up : Bool) (e : Entry)
      → Lives e
      → e.running.phase ≡ streaming up true
      → Comes a es (streaming up false) e
  down_ends true e =
      Comes-from _ e downstream_ends (streaming true false) (close_upstream e.running.fwdr)
        (λ h. cc) refl
  down_ends false e =
      Comes-from _ e downstream_ends (streaming false false) (close_upstream e.running.fwdr)
        (λ h. cc) refl

  gives_up : (e : Entry) → Lives e → e.running.phase ≡ dialling → Comes a es finished e
  gives_up e = Comes-from _ e dial_fails finished (dial_failed e.running.fwdr) (λ h. cc) refl

  begins : (e : Entry) → Lives e → e.running.phase ≡ created → Comes a es dialling e
  begins e (rate, l) p =
      let s : Running = record {
        phase = dialling;
        fwdr = accept_client e.running.fwdr fresh_conn;
      } in
      let h : happen e.running.phase e.running.fwdr (accepts fresh_conn) ≡ some (ok s) =
        subst (λ q. happen q e.running.fwdr (accepts fresh_conn) ≡ some (ok s)) (sym p) refl in
      (
        record { running = s; target = some a },
        more stay (moves e (accepts fresh_conn) h),
        (rate, Lifecycle.next e.running (accepts fresh_conn) l h),
        refl,
      )

  finishes : (ph : Phase) (e : Entry) → Lives e → e.running.phase ≡ ph → Comes a es finished e
  finishes created e l p = then-Comes e dialling finished (begins e l p) gives_up
  finishes dialling e l p = gives_up e l p
  finishes finished e l p = (e, stay, l, p)
  finishes (streaming true true) e l p =
      then-Comes e (streaming true false) finished (down_ends true e l p) up_ends
  finishes (streaming true false) e l p = up_ends e l p
  finishes (streaming false true) e l p =
      then-Comes e (streaming false false) finished (down_ends false e l p) ends
  finishes (streaming false false) e l p = ends e l p

pub all_finish :
    (a : TcpAddr) (es : List Entry)
    → AllLive es
    → (fs : List Entry) × Changes a es fs × AllFinished fs
all_finish a [] l = ([], stay, tt)
all_finish a (e ∷ es) (l, ls) =
    let (fs, c, h) = all_finish a es ls in
    let (f, d, m, p) = finishes a fs e.running.phase e l refl in
    (f ∷ fs, Changes-trans (Changes-later e c) d, (p, h))

pub run_changes :
    (t : System) {fs : List Entry}
    → Changes t.svc.server_addr t.svc.fwdrs fs
    → Reach t (record t { svc = record t.svc { fwdrs = fs } })
run_changes t stay = here
run_changes t (more c d) = next (run_changes t c) (forwards d)

-- ===== src/Main/Stays.antt =====
-- How long server/main.go keeps its API server.
use container_cloudlet.Common.{
  String, ◌≡◌, ◌≢◌, ◌⊎◌, inl, inr, refl, subst, sym, Bool, true, false, List, [], ◌++◌, ◌≤◌, arith,
}
use container_cloudlet.ApiServer.Accept
use container_cloudlet.ApiServer.Accept.{
  Server, started, start_api_server, Answer, returned, signals,
}
use container_cloudlet.ApiServer.Serving.{returned-closed}
use container_cloudlet.Main.Ends.{NoneQuits, start_command_line_spins}
use container_cloudlet.Main.Signals.{Counts, Step-Counts, Counts-came}
use container_cloudlet.Main.Signals as Signal
use container_cloudlet.Main.Run.{
  Phase, waits, stopping, sleeps, over, Program, Step, serves, quits, hears, signalled, closes,
  exits, dead, cannot_listen, panics, killed, Reach, here, next,
}

-- The channel is closed exactly behind `close(chanClose)`.
abbrev pub InStep : Phase → Bool → Type 0
InStep waits c = c ≡ false
InStep stopping c = c ≡ false
InStep sleeps c = c ≡ true
InStep over c = c ≡ true
InStep dead c = Unit

module _ {interactive : Bool} {lines : List (List String)} where
  Step-InStep :
      {s t : Program}
      → Step interactive lines s t
      → InStep s.main s.server.chan_closed
      → InStep t.main t.server.chan_closed
  Step-InStep {s} (serves l st e) h = subst (InStep s.main) (sym e) h
  Step-InStep {s} (quits n e i r) h = subst (λ p. InStep p s.server.chan_closed) e h
  Step-InStep (hears l i st) h = h
  Step-InStep {s} (signalled e i w) h = subst (λ p. InStep p s.server.chan_closed) e h
  Step-InStep (closes e) h = refl
  Step-InStep {s} (exits e) h = subst (λ p. InStep p s.server.chan_closed) e h
  Step-InStep (cannot_listen x l a p) h = tt
  Step-InStep (panics l) h = tt
  Step-InStep (killed l) h = tt

  Reach-InStep : {s : Program} → Reach interactive lines s → InStep s.main s.server.chan_closed
  Reach-InStep here = refl
  Reach-InStep (next r st) = Step-InStep st (Reach-InStep r)

  -- The server goes through a run of its own.
  server-Reach :
      {s : Program}
      → Reach interactive lines s
      → (xs : List Answer) × Accept.Reach started xs s.server
  server-Reach here = ([], Accept.here)
  server-Reach (next r (serves {xs = ys} l st e)) =
      let (xs, q) = server-Reach r in (xs ++ ys, Accept.next q st)
  server-Reach (next r (quits n e i k)) = server-Reach r
  server-Reach (next r (hears l i st)) = server-Reach r
  server-Reach (next r (signalled e i w)) = server-Reach r
  server-Reach (next {s} r (closes e)) =
      let (xs, q) = server-Reach r in
      (
        xs ++ [],
        Accept.next q (signals (subst (λ p. InStep p s.server.chan_closed) e (Reach-InStep r))),
      )
  server-Reach (next r (exits e)) = server-Reach r
  server-Reach (next r (cannot_listen x l a p)) = server-Reach r
  server-Reach (next r (panics l)) = server-Reach r
  server-Reach (next r (killed l)) = server-Reach r

  -- As long as `main` waits for a command or for a signal, the accept loop has not returned, whatever
  -- `Accept` answers.
  waits_serving :
      {s : Program} → Reach interactive lines s → s.main ≡ waits → s.server.loop ≢ returned
  unfolding start_api_server
  waits_serving {s} r e = λ h.
      let (xs, q) = server-Reach r in
      let open_chan = subst (λ p. InStep p s.server.chan_closed) e (Reach-InStep r) in
      let (shut, _) = returned-closed {s = started} refl q h in cc

  Step-AllCounts :
      {s t : Program} → Step interactive lines s t → Counts s.signals → Counts t.signals
  Step-AllCounts (serves l st e) c = c
  Step-AllCounts (quits n e i r) c = c
  Step-AllCounts (hears l i st) c = Step-Counts st c
  Step-AllCounts (signalled e i w) c = c
  Step-AllCounts (closes e) c = c
  Step-AllCounts (exits e) c = c
  Step-AllCounts (cannot_listen x l a p) c = c
  Step-AllCounts (panics l) c = c
  Step-AllCounts (killed l) c = c

  Reach-Counts : {s : Program} → Reach interactive lines s → Counts s.signals
  Reach-Counts here = (refl, omega arith)
  Reach-Counts (next r st) = Step-AllCounts st (Reach-Counts r)

  -- A signal that has come has come later on.
  Step-came : {s t : Program} → Step interactive lines s t → s.signals.came ≤ t.signals.came
  Step-came (serves l st e) = omega arith
  Step-came (quits n e i r) = omega arith
  Step-came (hears l i Signal.comes) = omega arith
  Step-came (hears l i (Signal.hears e p)) = omega arith
  Step-came (hears l i (Signal.tells n e w)) = omega arith
  Step-came (signalled e i w) = omega arith
  Step-came (closes e) = omega arith
  Step-came (exits e) = omega arith
  Step-came (cannot_listen x l a p) = omega arith
  Step-came (panics l) = omega arith
  Step-came (killed l) = omega arith

-- Nothing asks the program to stop: it is interactive, and no line of its input is `/q` or `quit`, or it
-- is not, and no signal has come.
abbrev pub IsUnasked : Bool → List (List String) → Program → Type 0
IsUnasked true lines s = NoneQuits lines
IsUnasked false lines s = s.signals.came ≡ 0

-- In the command line or in `waitForSignal`, or ended.
abbrev Waits : Phase → Type 0
Waits waits = Unit
Waits dead = Unit
Waits _ = ⊥

of_Waits : (p : Phase) → Waits p → (p ≡ dead) ⊎ (p ≡ waits)
of_Waits waits w = inr refl
of_Waits dead w = inl refl
of_Waits stopping w = elim w [ ]
of_Waits sleeps w = elim w [ ]
of_Waits over w = elim w [ ]

module _ {lines : List (List String)} where
  IsUnasked-before :
      (i : Bool) {s t : Program} → Step i lines s t → IsUnasked i lines t → IsUnasked i lines s
  IsUnasked-before true st u = u
  IsUnasked-before false st u = let l = Step-came st in omega arith

  Step-Waits :
      (i : Bool) {s t : Program}
      → Reach i lines s
      → Step i lines s t
      → IsUnasked i lines t
      → Waits s.main
      → Waits t.main
  Step-Waits i r (serves l st e) u h = h
  Step-Waits true r (quits n e i k) u h = let l = start_command_line_spins n lines u in cc
  Step-Waits false r (quits n e i k) u h = cc
  Step-Waits i r (hears l j st) u h = h
  Step-Waits true r (signalled e i w) u h = cc
  Step-Waits false r (signalled e i w) u h =
      let l = Counts-came _ (Reach-Counts r) w in absurd (omega arith)
  Step-Waits i r (closes e) u h = absurd (subst Waits e h)
  Step-Waits i r (exits e) u h = absurd (subst Waits e h)
  Step-Waits i r (cannot_listen x l a p) u h = tt
  Step-Waits i r (panics l) u h = tt
  Step-Waits i r (killed l) u h = tt

  Reach-Waits : (i : Bool) {s : Program} → Reach i lines s → IsUnasked i lines s → Waits s.main
  Reach-Waits i here u = tt
  Reach-Waits i (next r st) u = Step-Waits i r st u (Reach-Waits i r (IsUnasked-before i st u))

  -- As long as nothing asks it to stop, by a line `/q` or `quit` in the input of an interactive program or
  -- by a signal to another, the program serves where no panic and no signal that it does not handle has
  -- ended it: in every state that it reaches, also behind the end of the input, `main` is in its command
  -- line or waits for a signal, and the accept loop of the API server has not returned.
  pub unasked_serves :
      {i : Bool} {s : Program}
      → Reach i lines s
      → IsUnasked i lines s
      → (s.main ≡ dead) ⊎ ((s.main ≡ waits) × (s.server.loop ≢ returned))
  unasked_serves {i} r u = elim (of_Waits _ (Reach-Waits i r u)) [
    | inl e ↦ inl e
    | inr e ↦ inr (e, waits_serving r e)
  ]

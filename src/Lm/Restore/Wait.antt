-- ===== src/Lm/Restore/Wait.antt =====
-- The wait of `exec` of server/lm.go for the resume signal: the goroutine that accepts on the resume
-- listener, the timer, and the polling loop, as a step relation. What the signal carries is not looked
-- at, and the length of sleeps is not modelled.
use container_cloudlet.Common.{◌≡◌, ◌≢◌, refl, ◌⊎◌, inl, inr}

-- Where the goroutine of the resume listener stands: in `Accept`, in the read of a connection, or
-- returned, with the channel `resumeChan` closed.
pub data Signal : Type 0 where
  accepts reads closes : Signal

-- The timer's goroutine is not started yet, asleep, or returned, with `timeoutChan` closed.
pub data Timer : Type 0 where
  unset asleep fired : Timer

-- Where `exec` stands: before the loop, in it, or behind it, from one of the two channels.
pub data Loop : Type 0 where
  before polls resumed timed_out : Loop

pub record Wait : Type 0 where
  pub signal : Signal
  pub timer : Timer
  pub loop : Loop

-- When `exec` has started to listen.
abbrev pub listening : Wait
listening = record { signal = accepts; timer = unset; loop = before }

pub data Step (s : Wait) : Wait → Type 0 where
  -- anybody connects; an error ends the goroutine, and so does the end of the read, however it comes
  connects : s.signal ≡ accepts → Step s (record s { signal = reads })
  fails : s.signal ≡ accepts → Step s (record s { signal = closes })
  ends : s.signal ≡ reads → Step s (record s { signal = closes })
  -- the final dump has succeeded: the timer is started, and the loop
  begins : s.loop ≡ before → Step s (record s { timer = asleep; loop = polls })
  rings : s.timer ≡ asleep → Step s (record s { timer = fired })
  -- one round of the loop, where `select` takes any channel that is closed, and else the default
  sees_signal : s.loop ≡ polls → s.signal ≡ closes → Step s (record s { loop = resumed })
  sees_timer : s.loop ≡ polls → s.timer ≡ fired → Step s (record s { loop = timed_out })
  sleeps : s.loop ≡ polls → s.signal ≢ closes → s.timer ≢ fired → Step s s

pub data Reach (s : Wait) : Wait → Type 0 where
  here : Reach s s
  next : {t u : Wait} → Reach s t → Step t u → Reach s u

abbrev pub HasReturned : Wait → Type 0
HasReturned s = (s.loop ≡ resumed) ⊎ (s.loop ≡ timed_out)

-- What holds of the channels where the loop stands.
abbrev InStep : Loop → Signal → Timer → Type 0
InStep before g t = t ≡ unset
InStep polls g t = t ≢ unset
InStep resumed g t = g ≡ closes
InStep timed_out g t = t ≡ fired

abbrev IsInStep : Wait → Type 0
IsInStep s = InStep s.loop s.signal s.timer

signal-InStep : (l : Loop) (g g' : Signal) (t : Timer) → g ≢ closes → InStep l g t → InStep l g' t
signal-InStep before g g' t n h = h
signal-InStep polls g g' t n h = h
signal-InStep resumed g g' t n h = absurd (n h)
signal-InStep timed_out g g' t n h = h

fired-InStep : (l : Loop) (g : Signal) (t : Timer) → t ≡ asleep → InStep l g t → InStep l g fired
fired-InStep before g t e h = absurd (cc)
fired-InStep polls g t e h = λ k. cc
fired-InStep resumed g t e h = h
fired-InStep timed_out g t e h = refl

Step-IsInStep : {s t : Wait} → Step s t → IsInStep s → IsInStep t
Step-IsInStep {s} (connects e) h = signal-InStep s.loop s.signal reads s.timer (λ k. cc) h
Step-IsInStep {s} (fails e) h = signal-InStep s.loop s.signal closes s.timer (λ k. cc) h
Step-IsInStep {s} (ends e) h = signal-InStep s.loop s.signal closes s.timer (λ k. cc) h
Step-IsInStep (begins e) h = λ k. cc
Step-IsInStep {s} (rings e) h = fired-InStep s.loop s.signal s.timer e h
Step-IsInStep (sees_signal e g) h = g
Step-IsInStep (sees_timer e t) h = t
Step-IsInStep (sleeps e g t) h = h

-- The loop returns only behind an end of the resume listener's goroutine, for `resumed`, or of the timer,
-- for `timed_out`.
Reach-IsInStep : {s : Wait} → Reach listening s → IsInStep s
Reach-IsInStep here = refl
Reach-IsInStep (next r st) = Step-IsInStep st (Reach-IsInStep r)

-- Whatever steps are taken, the loop returns after some of them; until then there is one to take.
pub data MustReturn : Wait → Type 0 where
  done : {s : Wait} → HasReturned s → MustReturn s
  goes : {s : Wait} (t : Wait) → Step s t → ((u : Wait) → Step s u → MustReturn u) → MustReturn s

module _ (s : Wait) (l : s.loop ≡ polls) (f : s.timer ≡ fired) where
  must_by :
      (s.signal ≡ accepts → MustReturn (record s { signal = reads }))
      → (s.signal ≢ closes → MustReturn (record s { signal = closes }))
      → MustReturn s
  must_by to_reads to_closes = goes _ (sees_timer l f) (λ u st. onwards st)
    where
      onwards : {u : Wait} → Step s u → MustReturn u
      onwards (connects e) = to_reads e
      onwards (fails e) = to_closes (λ k. cc)
      onwards (ends e) = to_closes (λ k. cc)
      onwards (begins e) = absurd (cc)
      onwards (rings e) = absurd (cc)
      onwards (sees_signal e g) = done (inl refl)
      onwards (sees_timer e t) = done (inr refl)
      onwards (sleeps e g t) = absurd (t f)

closes-MustReturn : (s : Wait) → s.loop ≡ polls → s.timer ≡ fired → s.signal ≡ closes → MustReturn s
closes-MustReturn s l f g = must_by s l f (λ e. absurd (cc)) (λ n. absurd (n g))

reads-MustReturn : (s : Wait) → s.loop ≡ polls → s.timer ≡ fired → s.signal ≡ reads → MustReturn s
reads-MustReturn s l f g =
    must_by s l f (λ e. absurd (cc))
      (λ n. closes-MustReturn (record s { signal = closes }) l f refl)

-- Once the timer has gone off while the loop runs, the loop returns, whatever the goroutine of the resume
-- listener and its clients do and in whatever order.
pub fired-MustReturn : (s : Wait) → s.loop ≡ polls → s.timer ≡ fired → MustReturn s
fired-MustReturn s l f =
    must_by s l f (λ e. reads-MustReturn (record s { signal = reads }) l f refl)
      (λ n. closes-MustReturn (record s { signal = closes }) l f refl)

-- ===== src/Main/Signals.antt =====
-- `waitForSignal` of server/main.go: its goroutine, its channel and its wait group, as a step relation.
use container_cloudlet.Common.{ℕ, suc, ◌+◌, ◌≤◌, ◌≡◌, subst, arith}

-- Where the goroutine stands: at `<-sigs`, at `wg.Done()`, or returned.
pub data Hearer : Type 0 where
  listens heard gone : Hearer

-- How many signals have come, how many are in the channel, and the counter of the wait group.
pub record Signals : Type 0 where
  pub came : ℕ
  pub pending : ℕ
  pub hearer : Hearer
  pub wg : ℕ

-- Behind the `go`.
abbrev pub listening : Signals
listening = record { came = 0; pending = 0; hearer = listens; wg = 1 }

pub data Step (s : Signals) : Signals → Type 0 where
  -- `signal.Notify` does not wait: the channel holds one signal, and the next are dropped
  comes : Step s (record s { came = s.came + 1; pending = 1 })
  hears : s.hearer ≡ listens → s.pending ≡ 1 → Step s (record s { pending = 0; hearer = heard })
  tells : (n : ℕ) → s.hearer ≡ heard → s.wg ≡ suc n → Step s (record s { hearer = gone; wg = n })

abbrev CountsAt : Signals → Hearer → Type 0
CountsAt s listens = (s.wg ≡ 1) × (s.pending ≤ s.came)
CountsAt s heard = (s.wg ≡ 1) × (1 ≤ s.came)
CountsAt s gone = 1 ≤ s.came

-- What holds of the counts where the goroutine stands.
abbrev pub Counts : Signals → Type 0
Counts s = CountsAt s s.hearer

more-CountsAt :
    (s : Signals) (g : Hearer)
    → CountsAt s g
    → CountsAt (record s { came = s.came + 1; pending = 1 }) g
more-CountsAt s listens (e, l) = (e, omega arith)
more-CountsAt s heard (e, l) = (e, omega arith)
more-CountsAt s gone l = omega arith

pub Step-Counts : {s t : Signals} → Step s t → Counts s → Counts t
Step-Counts {s} comes c = more-CountsAt s s.hearer c
Step-Counts {s} (hears e p) c = let (w, l) = subst (CountsAt s) e c in (w, omega arith)
Step-Counts {s} (tells n e w) c = let (w', l) = subst (CountsAt s) e c in l

silent-CountsAt : (s : Signals) (g : Hearer) → CountsAt s g → s.wg ≡ 0 → 1 ≤ s.came
silent-CountsAt s listens (e, l) w = omega arith
silent-CountsAt s heard (e, l) w = l
silent-CountsAt s gone l w = l

-- Where the wait group lets go, a signal has come.
pub Counts-came : (s : Signals) → Counts s → s.wg ≡ 0 → 1 ≤ s.came
Counts-came s c w = silent-CountsAt s s.hearer c w

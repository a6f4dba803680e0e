-- ===== src/FwdSvc/Entries.antt =====
-- The list of forwarders of server/fwdsvc.go: what the forwarders' own moves, their closing and a new
-- one do to it.
use container_cloudlet.Common.{
  suc, ◌≤◌, ◌≡◌, refl, true, false, Option, none, some, List, [], ◌∷◌, ◌++◌, arith, ◌⊎◌, inl,
  length, ap,
}
use container_cloudlet.Go.{Result, ok, fail, panic}
use container_cloudlet.Forwarder.{Forwarder, close_upstream, then_do}
use container_cloudlet.Forwarder.Lifecycle.{
  Phase, created, dialling, streaming, finished, Running, Event, accepts, dial_fails, close_called,
  happen,
}
use container_cloudlet.FwdSvc.{
  ForwarderService, Entry, TcpAddr, close_entry, close_entries, close_all_forwarders,
}
use container_cloudlet.FwdSvc.System.{Change, moves, removed, later, AllFinished, target_after}

pub length-Change : {a : TcpAddr} {es fs : List Entry} → Change a es fs → length fs ≤ length es
length-Change (moves e ev h) = omega arith
length-Change (removed e h) = omega arith
length-Change (later e c) = omega (arith, length-Change c)

-- What `close_entries` leaves alone.
abbrev pub SameShape : List Entry → List Entry → Type 0
SameShape [] [] = Unit
SameShape [] (f ∷ fs) = ⊥
SameShape (e ∷ es) [] = ⊥
SameShape (e ∷ es) (f ∷ fs) =
    (f.running.phase ≡ e.running.phase) × (f.target ≡ e.target) × SameShape es fs

pub then_do-eq-ok :
    {A B : Type 0} (m : Result A) (f : A → Result B) (b : B)
    → then_do m f ≡ ok b
    → (a : A) × (m ≡ ok a) × (f a ≡ ok b)
then_do-eq-ok (ok a) f b h = (a, refl, h)
then_do-eq-ok (fail e) f b h = cc
then_do-eq-ok (panic m) f b h = cc

pub ok-injective : {A : Type 0} {a b : A} → ok a ≡ ok b → a ≡ b
ok-injective h = cc

close_entry-shape :
    (e f : Entry)
    → close_entry e ≡ ok f
    → (f.running.phase ≡ e.running.phase) × (f.target ≡ e.target)
close_entry-shape e f h =
    let (p, _, k) = then_do-eq-ok (close_upstream e.running.fwdr) _ f h in
    (ground arith, ground arith)

pub close_entries-shape : (es fs : List Entry) → close_entries es ≡ ok fs → SameShape es fs
close_entries-shape [] fs h = rw (← ok-injective h) tt
close_entries-shape (e ∷ es) fs h =
    let (e', h₁, k) = then_do-eq-ok (close_entry e) _ fs h in
    let (es', h₂, k₂) = then_do-eq-ok (close_entries es) _ fs k in
    let shape = close_entry-shape e e' h₁ in
    rw (← ok-injective k₂) (shape.0, shape.1, close_entries-shape es es' h₂)

pub length-SameShape : (es fs : List Entry) → SameShape es fs → length fs ≡ length es
length-SameShape [] [] h = refl
length-SameShape [] (f ∷ fs) h = absurd h
length-SameShape (e ∷ es) [] h = absurd h
length-SameShape (e ∷ es) (f ∷ fs) h = ap suc (length-SameShape es fs h.2)

-- What has finished stays so.
happen_finished :
    (ph : Phase) (p : Forwarder) (ev : Event) (r : Running)
    → ph ≡ finished
    → happen ph p ev ≡ some (ok r)
    → r.phase ≡ finished
happen_finished finished p close_called r e h = ground arith
happen_finished finished p _ r e h = cc
happen_finished _ p ev r e h = cc

pub AllFinished-Change :
    {a : TcpAddr} {es fs : List Entry} → Change a es fs → AllFinished es → AllFinished fs
AllFinished-Change (moves e ev {r} h) f =
    (happen_finished e.running.phase e.running.fwdr ev r f.0 h, f.1)
AllFinished-Change (removed e h) f = f.1
AllFinished-Change (later e c) f = (f.0, AllFinished-Change c f.1)

-- An entry that is to dial, or has dialled, an address: the one in the service.
abbrev pub IsAimed : TcpAddr → Entry → Type 0
IsAimed a e =
    (e.running.phase ≡ finished)
    ⊎ (((e.running.phase ≡ created) × (e.target ≡ none)) ⊎ (e.target ≡ some a))

abbrev pub AllAimed : TcpAddr → List Entry → Type 0
AllAimed a [] = Unit
AllAimed a (e ∷ es) = IsAimed a e × AllAimed a es

happen-IsAimed :
    (a : TcpAddr) (ph : Phase) (p : Forwarder) (t : Option TcpAddr) (ev : Event) (r : Running)
    → IsAimed a (record { running = record { phase = ph; fwdr = p }; target = t })
    → happen ph p ev ≡ some (ok r)
    → IsAimed a (record { running = r; target = target_after a ev t })
happen-IsAimed a created p t (accepts c) r i h = ground arith
happen-IsAimed a created p t close_called r i h = ground arith
happen-IsAimed a created p t _ r i h = ground arith
happen-IsAimed a dialling p t dial_fails r i h = ground arith
happen-IsAimed a dialling p t _ r i h = ground arith
happen-IsAimed a finished p t dial_fails r i h = ground arith
happen-IsAimed a finished p t _ r i h = ground arith
happen-IsAimed a (streaming true true) p t dial_fails r i h = ground arith
happen-IsAimed a (streaming true true) p t _ r i h = ground arith
happen-IsAimed a (streaming true false) p t dial_fails r i h = ground arith
happen-IsAimed a (streaming true false) p t _ r i h = ground arith
happen-IsAimed a (streaming false true) p t dial_fails r i h = ground arith
happen-IsAimed a (streaming false true) p t _ r i h = ground arith
happen-IsAimed a (streaming false false) p t dial_fails r i h = ground arith
happen-IsAimed a (streaming false false) p t _ r i h = ground arith

pub AllAimed-Change :
    (a : TcpAddr) {es fs : List Entry} → Change a es fs → AllAimed a es → AllAimed a fs
AllAimed-Change a (moves e ev {r} h) i =
    (happen-IsAimed a e.running.phase e.running.fwdr e.target ev r i.0 h, i.1)
AllAimed-Change a (removed e h) i = i.1
AllAimed-Change a (later e c) i = (i.0, AllAimed-Change a c i.1)

pub AllAimed-SameShape :
    (a : TcpAddr) (es fs : List Entry) → SameShape es fs → AllAimed a es → AllAimed a fs
AllAimed-SameShape a [] [] h i = tt
AllAimed-SameShape a [] (f ∷ fs) h i = absurd h
AllAimed-SameShape a (e ∷ es) [] h i = absurd h
AllAimed-SameShape a (e ∷ es) (f ∷ fs) h i = (ground arith, AllAimed-SameShape a es fs h.2 i.1)

pub AllAimed-push :
    (a : TcpAddr) (es : List Entry) (e : Entry)
    → AllAimed a es
    → IsAimed a e
    → AllAimed a (es ++ e ∷ [])
AllAimed-push a [] e i k = (k, tt)
AllAimed-push a (x ∷ es) e i k = (i.0, AllAimed-push a es e i.1 k)

-- What has finished aims anywhere.
pub AllAimed-finished : (a : TcpAddr) (es : List Entry) → AllFinished es → AllAimed a es
AllAimed-finished a [] f = tt
AllAimed-finished a (e ∷ es) f = (inl f.0, AllAimed-finished a es f.1)

pub close_all-entries :
    (p q : ForwarderService)
    → close_all_forwarders p ≡ ok q
    → (close_entries p.fwdrs ≡ ok q.fwdrs) × (q.server_addr ≡ p.server_addr)
unfolding close_all_forwarders
close_all-entries p q h = ground arith

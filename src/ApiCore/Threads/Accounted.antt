-- ===== src/ApiCore/Threads/Accounted.antt =====
-- The forwarding services of server/api-core.go in every interleaving of its goroutines.
use container_cloudlet.Common.{
  ℕ, String, ◌≡◌, ◌≢◌, refl, sym, subst, inr, Bool, true, false, Option, none, some, List, arith,
  ◌==◌, nat_eq, string_eq, str_iff, if◌then◌else◌,
}
use container_cloudlet.ApiCore.Threads.{
  Op, Place, begins, spawns, ends, closes, Heap, Entry, put, Stage, holds, Migration, Go, gives_up,
  captures, aborts, reaches_suspend, resumes, Moves, this, later, closed_twice, Core, Step, locks,
  acts, spawned, closes_twice, migrates, suspends_nil, closes_unaccepted, begun, Reach, here, next,
}
use container_cloudlet.ApiCore.Threads.Refs.{
  Effect, quiet, grows, shuts, drops, Accounts, Effect-Accounts,
}
use container_cloudlet.ApiCore.Threads.Places.{
  At, Sound, ref_at, ref, Act-Sound, Act-Effect, Spares, Sound-still,
}
use container_cloudlet.ApiCore.Threads.Tracks.{refs, Tracks, AllTrack, AllTrack-still, kept-ref}

pub record IsAccounted (s : Core) : Type 0 where
  pub sound : (n : String) → Sound s.heap (s.entries n).fwdsvc (s.entries n).holder
  pub accounts : Accounts (refs s.entries) s.heap
  pub tracks : AllTrack (refs s.entries) s.heap s.migrations
  pub calm : s.crash ≢ some closed_twice

module _ (s : Core) (v : IsAccounted s) where
  read-Tracks :
      (n : String) (k : Option ℕ)
      → (s.entries n).fwdsvc ≡ k
      → Tracks (refs s.entries) s.heap n (holds k)
  read-Tracks n none e = tt
  read-Tracks n (some a) e =
      let q = kept-ref s.heap (s.entries n).fwdsvc (s.entries n).holder a (v.sound n) e in
      (v.accounts.below n a q, inr q)

  Go-Tracks :
      (n : String) (k : Option ℕ) {g g' : Stage}
      → (s.entries n).fwdsvc ≡ k
      → Go k g g'
      → Tracks (refs s.entries) s.heap n g
      → Tracks (refs s.entries) s.heap n g'
  Go-Tracks n k e gives_up t = tt
  Go-Tracks n k e captures t = read-Tracks n k e
  Go-Tracks n k e (aborts o) t = tt
  Go-Tracks n k e (reaches_suspend a) t = t
  Go-Tracks n k e (resumes a) t = tt

  Moves-AllTrack :
      {ms ns : List Migration}
      → Moves s.entries ms ns
      → AllTrack (refs s.entries) s.heap ms
      → AllTrack (refs s.entries) s.heap ns
  Moves-AllTrack (this m g) (t, ts) = (Go-Tracks m.name _ refl g t, ts)
  Moves-AllTrack (later m ms) (t, ts) = (t, Moves-AllTrack ms ts)

  module _ (n : String) (e : Entry) {h : Heap}
      (f : Effect s.heap (refs s.entries n) (ref e.holder e.fwdsvc) h) where
    spared : (m : String) → m ≢ n → Spares f (refs s.entries m)
    spared m d = by_effect f
      where
        by_effect :
            {y : Option ℕ} {h' : Heap} (f : Effect s.heap (refs s.entries n) y h')
            → Spares f (refs s.entries m)
        by_effect quiet = tt
        by_effect (grows i) = tt
        by_effect (shuts a i) = λ q. d (v.accounts.apart m n a q i)
        by_effect (drops a i j) = tt

    by_name :
        (m : String) (b : Bool)
        → (m == n) ≡ b
        → Sound h e.fwdsvc e.holder
        → Sound h (if b then e else s.entries m).fwdsvc (if b then e else s.entries m).holder
    by_name m true q i = i
    by_name m false q i =
        Sound-still f (s.entries m).fwdsvc (s.entries m).holder
          (spared m (λ k. ground (arith, str_iff m n))) (v.sound m)

    put-refs :
        (m : String) (b : Bool)
        → ref (if b then e else s.entries m).holder (if b then e else s.entries m).fwdsvc
          ≡ (if b then ref e.holder e.fwdsvc else refs s.entries m)
    put-refs m true = refl
    put-refs m false = refl

    put-IsAccounted :
        Sound h e.fwdsvc e.holder → IsAccounted (record s { entries = put n e s.entries; heap = h })
    unfolding put
    put-IsAccounted i = record {
      sound = λ m. by_name m (m == n) refl i;
      accounts =
          Effect-Accounts (refs s.entries) n (refs (put n e s.entries)) f v.accounts
            (λ m. put-refs m (m == n));
      tracks =
          AllTrack-still (refs s.entries) (refs (put n e s.entries)) n f (λ m. put-refs m (m == n))
            s.migrations v.tracks;
      calm = v.calm;
    }

  placed :
      (n : String) (p : Place) → (s.entries n).holder ≡ some p → At s.heap (s.entries n).fwdsvc p
  placed n p e = subst (Sound s.heap (s.entries n).fwdsvc) e (v.sound n)

  -- A step of the handler that holds the mutex of `n`, by its effect.
  step-IsAccounted :
      (n : String) (p : Place) (e : Entry) {h : Heap}
      → (s.entries n).holder ≡ some p
      → Effect s.heap (ref_at p (s.entries n).fwdsvc) (ref e.holder e.fwdsvc) h
      → Sound h e.fwdsvc e.holder
      → IsAccounted (record s { entries = put n e s.entries; heap = h })
  step-IsAccounted n p e {h} q f i =
      put-IsAccounted n e
        (subst (λ o. Effect s.heap (ref o (s.entries n).fwdsvc) (ref e.holder e.fwdsvc) h) (sym q)
          f)
        i

  locks-IsAccounted :
      (n : String) (op : Op)
      → (s.entries n).holder ≡ none
      → IsAccounted (record s {
        entries = put n (record (s.entries n) { holder = some (begins op) }) s.entries;
      })
  locks-IsAccounted n op q =
      let e : Entry = record (s.entries n) { holder = some (begins op) } in
      put-IsAccounted n e {h = s.heap}
        (subst (λ o. Effect s.heap (ref o (s.entries n).fwdsvc) (ref e.holder e.fwdsvc) s.heap)
          (sym q) quiet)
        (subst (Sound s.heap (s.entries n).fwdsvc) q (v.sound n))

  Step-IsAccounted : {t : Core} → Step s t → IsAccounted t
  Step-IsAccounted (locks n op q) = locks-IsAccounted n op q
  Step-IsAccounted (acts n {p} {k} {o = o} q a) =
      step-IsAccounted n p (record { holder = o; fwdsvc = k }) q (Act-Effect a (placed n p q))
        (Act-Sound a (placed n p q))
  Step-IsAccounted (spawned n q) =
      let e : Entry = record (s.entries n) { holder = some ends } in
      let w = step-IsAccounted n spawns e q quiet (placed n spawns q) in
      record { sound = w.sound; accounts = w.accounts; tracks = (tt, w.tracks); calm = v.calm }
  Step-IsAccounted (closes_twice n a q c) = let (e, l, o) = placed n (closes a) q in absurd (cc)
  Step-IsAccounted (migrates ms) = record {
    sound = v.sound;
    accounts = v.accounts;
    tracks = Moves-AllTrack ms v.tracks;
    calm = v.calm;
  }
  Step-IsAccounted (suspends_nil h) = record {
    sound = v.sound;
    accounts = v.accounts;
    tracks = v.tracks;
    calm = λ k. cc;
  }
  Step-IsAccounted (closes_unaccepted h) = record {
    sound = v.sound;
    accounts = v.accounts;
    tracks = v.tracks;
    calm = λ k. cc;
  }

begun-IsAccounted : IsAccounted begun
begun-IsAccounted = record {
  sound = λ n. tt;
  accounts = record {
    below = λ n a e. cc;
    apart = λ n m a e f. cc;
    found = λ a l o. absurd (omega arith);
  };
  tracks = tt;
  calm = λ k. cc;
}

-- In every state that the goroutines come to, in any order of their steps and whatever clusters and
-- networks answer: no two entries refer to one forwarding service; every service that is not closed is
-- kept by an entry or is about to be assigned to one; a service that is kept is open, unless `Remove`
-- is about to set the entry to nil; what a goroutine of `DeployFwdLM` has read is closed or still kept for
-- its name; and no service is closed twice.
pub Reach-IsAccounted : {s : Core} → Reach begun s → IsAccounted s
Reach-IsAccounted here = begun-IsAccounted
Reach-IsAccounted (next {t} r c st) = Step-IsAccounted t (Reach-IsAccounted r) st

-- ===== src/ApiCore/Threads/Progress.antt =====
-- That no handler of server/api-core.go waits for ever for the mutex of its entry.
use container_cloudlet.Common.{
  ℕ, String, ◌≡◌, refl, subst, ◌⊎◌, inl, inr, Option, none, some, List, [], ◌∷◌, ap,
}
use container_cloudlet.ApiCore.Threads.{
  Op, Place, begins, spawns, ends, Heap, unlocks, Entry, put, prepares, Migration, Core, spawned,
  begun, Reach,
}
use container_cloudlet.ApiCore.Threads.Places.{Sound}
use container_cloudlet.ApiCore.Threads.Accounted.{IsAccounted, Reach-IsAccounted}
use container_cloudlet.ApiCore.Threads.Runs.{
  stays, more, Now, Now-put, runs, runs_lock, Leads, Leads-refl, Leads-trans, Leads-step,
}
use container_cloudlet.ApiCore.Threads.Ends.{finish, AtEnd}

-- Some goroutine of `DeployFwdLM` for `n` has not read the entry yet.
abbrev pub Prepares : String → List Migration → Type 0
Prepares n [] = ⊥
Prepares n (m ∷ ms) = ((m.name ≡ n) × (m.stage ≡ prepares)) ⊎ Prepares n ms

-- The mutex of `n` is free, and the goroutines of before are there as they were.
pub record IsFree (s t : Core) (n : String) (kept : Option ℕ) (heap : Heap) : Type 0 where
  pub leads : Leads n s t
  pub migrations : List Migration
  pub now : Now t n none kept heap migrations
  pub prepared : Prepares n s.migrations → Prepares n migrations

module _ {s : Core} {n : String} where
  spawn_then :
      {t : Core} {k : Option ℕ} {h : Heap} {ms : List Migration}
      → Leads n s t
      → Now t n (some spawns) k h ms
      → (Prepares n s.migrations → Prepares n ms)
      → (u : Core) × IsFree s u n k h
  spawn_then {t} {k} {h} {ms} r w f =
      let e : Entry = record (t.entries n) { holder = some ends } in
      let m : Migration = record { name = n; stage = prepares } in
      let u : Core = record t { entries = put n e t.entries; migrations = m ∷ t.migrations } in
      let v = Now-put e t.heap w w.fwdsvc in
      let x : Now u n (some ends) k h (m ∷ ms) = record {
        holder = v.holder;
        fwdsvc = v.fwdsvc;
        heap = w.heap;
        migrations = ap (◌∷◌ m) w.migrations;
        calm = w.calm;
      } in
      let (z, q, y) = runs x (more stays unlocks) in
      (
        z,
        record {
          leads = Leads-trans (Leads-trans r (Leads-step e w.calm (spawned n w.holder) refl)) q;
          migrations = m ∷ ms;
          now = y;
          prepared = λ p. inr (f p);
        },
      )

  freed :
      {t : Core} {k : Option ℕ} {h : Heap} {o : Option Place}
      → Leads n s t
      → Now t n o k h s.migrations
      → AtEnd o
      → (u : Core) × IsFree s u n k h
  freed {t} {k} {h} r w (inl e) = (
    t,
    record {
      leads = r;
      migrations = s.migrations;
      now = subst (λ o. Now t n o k h s.migrations) e w;
      prepared = λ p. p;
    },
  )
  freed {t} {k} {h} r w (inr e) =
      spawn_then r (subst (λ o. Now t n o k h s.migrations) e w) (λ p. p)

-- From every state that the goroutines come to, the mutex of `n` can be released.
pub released :
    (s : Core) (n : String)
    → IsAccounted s
    → s.crash ≡ none
    → (k : Option ℕ) × (h : Heap) × (t : Core) × IsFree s t n k h
released s n v c = by_holder (s.entries n).holder refl
  where
    by_holder :
        (o : Option Place)
        → (s.entries n).holder ≡ o
        → (k : Option ℕ) × (h : Heap) × (t : Core) × IsFree s t n k h
    by_holder o e =
        let w : Now s n o (s.entries n).fwdsvc s.heap s.migrations = record {
          holder = e;
          fwdsvc = refl;
          heap = refl;
          migrations = refl;
          calm = c;
        } in
        by_place o (subst (Sound s.heap (s.entries n).fwdsvc) e (v.sound n)) w
      where
        by_place :
            (o : Option Place)
            → Sound s.heap (s.entries n).fwdsvc o
            → Now s n o (s.entries n).fwdsvc s.heap s.migrations
            → (k : Option ℕ) × (h : Heap) × (t : Core) × IsFree s t n k h
        by_place none i w = let (u, f) = freed (Leads-refl s) w (inl refl) in (_, _, u, f)
        by_place (some p) i w =
            let f = finish (s.entries n).fwdsvc s.heap p i in
            let (t, r, x) = runs w f.steps in let (u, g) = freed r x f.at_end in (_, _, u, g)

-- From every state that the goroutines come to without a crash there is a run on which a handler of any
-- kind gets the mutex of any name; that the calls of the other handlers on clusters and networks return is
-- part of it.
pub gets_mutex :
    {s : Core} (n : String) (op : Op)
    → Reach begun s
    → s.crash ≡ none
    → (t : Core) × Reach s t × ((t.entries n).holder ≡ some (begins op))
gets_mutex {s} n op r c =
    let (k, h, t, f) = released s n (Reach-IsAccounted r) c in
    let (u, q, w) = runs_lock op f.now in (u, (Leads-trans f.leads q).reach, w.holder)

-- ===== src/ApiCore/Threads/Races.antt =====
-- `Remove` of server/api-core.go while the goroutine of a `DeployFwdLM` runs.
use container_cloudlet.Common.{
  ℕ, String, ◌≡◌, refl, sym, subst, ap, ◌∙◌, inl, inr, Option, none, some, List, [], ◌∷◌,
}
use container_cloudlet.ApiCore.Threads.{
  remove, Heap, Entry, holds, Migration, Go, captures, Moves, this, later, nil_service, Core,
  HasNil, migrates, suspends_nil, begun, Reach, next,
}
use container_cloudlet.ApiCore.Threads.Places.{Sound}
use container_cloudlet.ApiCore.Threads.Accounted.{Reach-IsAccounted}
use container_cloudlet.ApiCore.Threads.Handled.{remove_runs}
use container_cloudlet.ApiCore.Threads.Runs.{Now, runs, runs_lock, Reach-trans}
use container_cloudlet.ApiCore.Threads.Progress.{Prepares, released}

-- The goroutine reads the entry, which is nil.
captured :
    (es : String → Entry) (n : String) (ms : List Migration)
    → (es n).fwdsvc ≡ none
    → Prepares n ms
    → (ns : List Migration) × Moves es ms ns × HasNil ns
captured es n [] e h = elim h [ ]
captured es n (m ∷ ms) e (inl (p, q)) = (
  _,
  this m (subst (λ g. Go (es m.name).fwdsvc g (holds (es m.name).fwdsvc)) (sym q) captures),
  inl (ap holds (ap (λ x. (es x).fwdsvc) p ∙ e)),
)
captured es n (m ∷ ms) e (inr h) = let (ns, mv, k) = captured es n ms e h in (_, later m mv, inr k)

abbrev Crashes : Core → Type 0
Crashes s = (u : Core) × Reach s u × (u.crash ≡ some nil_service)

nil_crashes :
    {s t : Core} {n : String} {h : Heap} {ms : List Migration}
    → Reach s t
    → Now t n none none h ms
    → Prepares n ms
    → Crashes s
nil_crashes {t = t} {n} {ms = ms} r w p =
    let (ns, mv, k) =
      captured t.entries n t.migrations w.fwdsvc (subst (Prepares n) (sym w.migrations) p) in
    (_, next (next r w.calm (migrates mv)) w.calm (suspends_nil k), refl)

-- From every state that the goroutines come to without a crash, and in which one of a `DeployFwdLM` has
-- not read the entry of its name yet, there is a run that ends the program: that goroutine suspends a nil
-- service.
pub remove_crashes :
    {s : Core} (n : String)
    → Reach begun s
    → s.crash ≡ none
    → Prepares n s.migrations
    → (u : Core) × Reach s u × (u.crash ≡ some nil_service)
remove_crashes {s} n r c p =
    let (k, h, t, f) = released s n (Reach-IsAccounted r) c in
    by_kept t k h f.leads.reach f.now
      (subst (λ o. Sound t.heap (t.entries n).fwdsvc o) f.now.holder
        ((Reach-IsAccounted (Reach-trans r f.leads.reach)).sound n))
      (f.prepared p)
  where
    by_kept :
        (t : Core) (k : Option ℕ) (h : Heap) {ms : List Migration}
        → Reach s t
        → Now t n none k h ms
        → Sound t.heap (t.entries n).fwdsvc none
        → Prepares n ms
        → Crashes s
    by_kept t none h q w i p = nil_crashes q w p
    by_kept t (some a) h q w i p =
        let (l, o) =
          subst (λ k. Sound h k none) w.fwdsvc
            (subst (λ g. Sound g (t.entries n).fwdsvc none) w.heap i) in
        let (u, x, y) = runs_lock remove w in
        let (z, b, d) = runs y (remove_runs a refl o).steps in
        nil_crashes (Reach-trans (Reach-trans q x.reach) b.reach) d p

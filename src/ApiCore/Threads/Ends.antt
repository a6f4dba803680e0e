-- ===== src/ApiCore/Threads/Ends.antt =====
-- How a handler of server/api-core.go comes from where it stands to the release of its mutex.
use container_cloudlet.Common.{ℕ, ◌≡◌, refl, ◌⊎◌, inl, inr, true, Option, none, some}
use container_cloudlet.ApiCore.Threads.{
  Op, new_app, fwd, lm, fwd_lm, dump_start, remove, deploys, Place, begins, tests, listens, assigns,
  spawns, ends, clears, closes, first, after, Heap, set_closed, Act, goes_on, finds, finds_none,
  listen_fails, assigned, has_service, has_none, closes_it, cleared, unlocks,
}
use container_cloudlet.ApiCore.Threads.Ops.{by_first, by_after}
use container_cloudlet.ApiCore.Threads.Places.{At}
use container_cloudlet.ApiCore.Threads.Runs.{Acts, stays, more}

Acts-trans :
    {k : Option ℕ} {h : Heap} {p : Place} {k₁ : Option ℕ} {h₁ : Heap} {q : Place} {k₂ : Option ℕ}
    {h₂ : Heap} {o : Option Place}
    → Acts k h p k₁ h₁ (some q)
    → Acts k₁ h₁ q k₂ h₂ o
    → Acts k h p k₂ h₂ o
Acts-trans a stays = a
Acts-trans a (more b c) = more (Acts-trans a b) c

abbrev pub AtEnd : Option Place → Type 0
AtEnd o = (o ≡ none) ⊎ (o ≡ some spawns)

-- Steps to the release of the mutex, or to the `go` of `DeployFwdLM`.
pub record Finish (k : Option ℕ) (h : Heap) (p : Place) : Type 0 where
  pub kept : Option ℕ
  pub heap : Heap
  pub last : Option Place
  pub steps : Acts k h p kept heap last
  pub at_end : AtEnd last

module _ {k : Option ℕ} {h : Heap} where
  first_then :
      {p : Place} {k' : Option ℕ} {h' : Heap} {q : Place}
      → Act k h p k' h' (some q)
      → Finish k' h' q
      → Finish k h p
  first_then a f = record {
    kept = f.kept;
    heap = f.heap;
    last = f.last;
    steps = Acts-trans (more stays a) f.steps;
    at_end = f.at_end;
  }

  finish_ends : Finish k h ends
  finish_ends = record {
    kept = k;
    heap = h;
    last = none;
    steps = more stays unlocks;
    at_end = inl refl;
  }

  finish_spawns : Finish k h spawns
  finish_spawns = record {
    kept = k;
    heap = h;
    last = some spawns;
    steps = stays;
    at_end = inr refl;
  }

  finish_after : (op : Op) → Finish k h (after op)
  finish_after op = by_after (Finish k h) op finish_spawns finish_ends

  finish_listens : (op : Op) → Finish k h (listens op)
  finish_listens op = first_then (listen_fails op) (finish_after op)

finish_clears : (k : Option ℕ) (h : Heap) → Finish k h clears
finish_clears k h = first_then cleared finish_ends

finish_deploy : (k : Option ℕ) (h : Heap) (op : Op) → deploys op ≡ true → Finish k h (tests op)
finish_deploy none h op d = first_then (finds_none op d refl) (finish_listens op)
finish_deploy (some a) h op d = first_then (finds op a d refl) (finish_after op)

finish_closes : (k : Option ℕ) (h : Heap) (a : ℕ) → At h k (closes a) → Finish k h (closes a)
finish_closes k h a (e, l, c) = first_then (closes_it a c) (finish_clears k (set_closed a true h))

finish_remove : (k : Option ℕ) (h : Heap) → At h k (tests remove) → Finish k h (tests remove)
finish_remove none h i = first_then (has_none refl) finish_ends
finish_remove (some a) h ((l, c), n) =
    first_then (has_service a refl) (finish_closes (some a) h a (refl, l, c))

finish_tests : (k : Option ℕ) (h : Heap) (op : Op) → At h k (tests op) → Finish k h (tests op)
finish_tests k h new_app i = finish_deploy k h new_app refl
finish_tests k h fwd i = finish_deploy k h fwd refl
finish_tests k h lm i = finish_deploy k h lm refl
finish_tests k h fwd_lm i = finish_deploy k h fwd_lm refl
finish_tests k h dump_start (i, n) = absurd (n refl)
finish_tests k h remove i = finish_remove k h i

finish_first : (k : Option ℕ) (h : Heap) (op : Op) → At h k (begins op) → Finish k h (first op)
finish_first k h op i = by_first (Finish k h) op finish_ends (λ d. finish_tests k h op (i, d))

pub finish : (k : Option ℕ) (h : Heap) (p : Place) → At h k p → Finish k h p
finish k h (begins op) i = first_then (goes_on op) (finish_first k h op i)
finish k h (tests op) i = finish_tests k h op i
finish k h (listens op) i = finish_listens op
finish k h (assigns op a) i = first_then (assigned op a) (finish_after op)
finish k h spawns i = finish_spawns
finish k h ends i = finish_ends
finish k h clears i = finish_clears k h
finish k h (closes a) i = finish_closes k h a i

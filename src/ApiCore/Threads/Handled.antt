-- ===== src/ApiCore/Threads/Handled.antt =====
-- What `Remove` of server/api-core.go does that closes a service.
use container_cloudlet.Common.{◌≡◌, ℕ, false, Option, none, some}
use container_cloudlet.ApiCore.Threads.{
  Op, remove, begins, Heap, goes_on, has_service, closes_it, cleared, unlocks,
}
use container_cloudlet.ApiCore.Threads.Runs.{Acts, stays, more}

-- Its steps up to the release of its mutex.
pub record Handling (op : Op) (k : Option ℕ) (h : Heap) (k' : Option ℕ) : Type 0 where
  pub heap : Heap
  pub steps : Acts k h (begins op) k' heap none

module _ {k : Option ℕ} {h : Heap} where
  pub remove_runs : (a : ℕ) → k ≡ some a → h.closed a ≡ false → Handling remove k h none
  remove_runs a e c = record {
    heap = _;
    steps =
        more
          (more (more (more (more stays (goes_on remove)) (has_service a e)) (closes_it a c))
            cleared)
          unlocks;
  }

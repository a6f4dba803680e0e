-- ===== src/Examples/Threads.antt =====
-- A run of the goroutines of server/api-core.go: a deployment with forwarding and migration.
use container_cloudlet.Common.{◌≡◌, refl, Option, none, some, ℕ, inl, [], ◌∷◌}
use container_cloudlet.ApiCore.Threads.{
  fwd_lm, remove, Place, begins, tests, listens, assigns, spawns, ends, allocate, set_closed,
  goes_on, finds_none, starts, assigned, put, prepares, nil_service, Core, locks, acts, spawned,
  begun, Reach, here, next, holds, listen_fails, migrates, this, captures, suspends_nil,
}
use container_cloudlet.ApiCore.Threads.Accounted.{IsAccounted, Reach-IsAccounted}
use container_cloudlet.ApiCore.Threads.Progress.{gets_mutex}
use container_cloudlet.ApiCore.Threads.Races.{remove_crashes}
use container_cloudlet.ApiCore.Threads.Causes.{Caused, crash-Caused}

abbrev app_at : Option Place → Option ℕ → Core → Core
app_at o k s = record s { entries = put "app" (record { holder = o; fwdsvc = k }) s.entries }

abbrev locked : Core
locked = app_at (some (begins fwd_lm)) none begun

abbrev tested : Core
tested = app_at (some (tests fwd_lm)) none locked

abbrev listening : Core
listening = app_at (some (listens fwd_lm)) none tested

abbrev started : Core
started = record (app_at (some (assigns fwd_lm 0)) none listening) { heap = allocate begun.heap }

abbrev kept : Core
kept = app_at (some spawns) (some 0) started

-- The goroutine runs, and the handler still holds the mutex.
abbrev spawned_one : Core
spawned_one = record (app_at (some ends) (some 0) kept) {
  migrations = record { name = "app"; stage = prepares } ∷ [];
}

spawned_reached : Reach begun spawned_one
unfolding put allocate set_closed
spawned_reached =
    let a = next here refl (locks "app" fwd_lm refl) in
    let b = next a refl (acts "app" refl (goes_on fwd_lm)) in
    let c = next b refl (acts "app" refl (finds_none fwd_lm refl refl)) in
    let d = next c refl (acts "app" refl (starts fwd_lm)) in
    let e = next d refl (acts "app" refl (assigned fwd_lm 0)) in next e refl (spawned "app" refl)

Reach-IsAccounted_example : IsAccounted spawned_one
Reach-IsAccounted_example = Reach-IsAccounted spawned_reached

gets_mutex_example :
    (t : Core) × Reach spawned_one t × ((t.entries "app").holder ≡ some (begins remove))
gets_mutex_example = gets_mutex "app" remove spawned_reached refl

remove_crashes_example : (u : Core) × Reach spawned_one u × (u.crash ≡ some nil_service)
remove_crashes_example = remove_crashes "app" spawned_reached refl (inl (refl, refl))

-- Where the port is taken, and the goroutine reads the entry.
abbrev unserved : Core
unserved = app_at (some spawns) none listening

abbrev alone : Core
alone = record (app_at (some ends) none unserved) {
  migrations = record { name = "app"; stage = prepares } ∷ [];
}

abbrev read_nil : Core
read_nil = record alone { migrations = record { name = "app"; stage = holds none } ∷ [] }

abbrev crashed : Core
crashed = record read_nil { crash = some nil_service }

crashed_reached : Reach begun crashed
unfolding put
crashed_reached =
    let a = next here refl (locks "app" fwd_lm refl) in
    let b = next a refl (acts "app" refl (goes_on fwd_lm)) in
    let c = next b refl (acts "app" refl (finds_none fwd_lm refl refl)) in
    let d = next c refl (acts "app" refl (listen_fails fwd_lm)) in
    let e = next d refl (spawned "app" refl) in
    let f = next e refl (migrates (this (record { name = "app"; stage = prepares }) captures)) in
    next f refl (suspends_nil (inl refl))

crash-Caused_example : Caused crashed_reached
crash-Caused_example = crash-Caused crashed_reached nil_service refl (λ e. cc)

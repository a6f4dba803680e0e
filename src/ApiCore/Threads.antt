-- ===== src/ApiCore/Threads.antt =====
-- The goroutines of server/api-core.go that run at the same time, as a step relation: the handlers, each
-- under the mutex of its entry, and the goroutines of `DeployFwdLM`, which hold no mutex. A forwarding
-- service is an address here, since the goroutines share it. What clusters and networks answer is left
-- open, and of the panics those of the services that the entries keep and of their forwarders are here; the handlers alone,
-- with all that they call, are in ApiCore.Handlers.
pub mod Ops
pub mod Refs
pub mod Places
pub mod Tracks
pub mod Accounted
pub mod Runs
pub mod Ends
pub mod Handled
pub mod Progress
pub mod Races
pub mod Causes
use container_cloudlet.Common.{
  ℕ, ◌+◌, String, ◌≡◌, ◌⊎◌, Bool, true, false, Option, none, some, List, [], ◌∷◌, ◌==◌, nat_eq,
  string_eq, if◌then◌else◌,
}

-- What a handler does: `DeployNew`, `DeployFwd`, `DeployLM`, `DeployFwdLM`, `DumpStart` or `Remove`.
pub data Op : Type 0 where
  new_app fwd lm fwd_lm dump_start remove : Op

abbrev pub needs_client : Op → Bool
needs_client fwd = false
needs_client fwd_lm = false
needs_client _ = true

abbrev pub deploys : Op → Bool
deploys dump_start = false
deploys remove = false
deploys _ = true

-- Where a handler stands that holds the mutex: behind `Lock`, at its test of `res.fwdsvc`, in the start of
-- a service, at the assignment of the one that was started, at the `go` of `DeployFwdLM`, behind all
-- that touches the entry, and, in `Remove`, at `Close` and at the assignment of nil.
pub data Place : Type 0 where
  begins tests listens : Op → Place
  assigns : Op → ℕ → Place
  spawns ends clears : Place
  closes : ℕ → Place

-- Behind `NewClient`, where it is called.
abbrev pub first : Op → Place
first dump_start = ends
first op = tests op

-- Behind the forwarding service.
abbrev pub after : Op → Place
after fwd_lm = spawns
after op = ends

-- The services: whether the channel `chanClose` is closed, and the next address.
pub record Heap : Type 0 where
  pub closed : ℕ → Bool
  pub next : ℕ

unfoldable pub set_closed : ℕ → Bool → Heap → Heap
set_closed a b h = record h { closed = λ c. if c == a then b else h.closed c }

unfoldable pub allocate : Heap → Heap
unfolding set_closed
allocate h = record (set_closed h.next false h) { next = h.next + 1 }

-- One step of a handler, from the service that the entry keeps and the heap, to these and the next place,
-- or none behind `Unlock`.
pub data Act (k : Option ℕ) (h : Heap) : Place → Option ℕ → Heap → Option Place → Type 0 where
  goes_on : (op : Op) → Act k h (begins op) k h (some (first op))
  no_client : (op : Op) → needs_client op ≡ true → Act k h (begins op) k h (some ends)
  -- "Use existing forwarding service"
  finds :
      (op : Op) (a : ℕ) → deploys op ≡ true → k ≡ some a → Act k h (tests op) k h (some (after op))
  finds_none : (op : Op) → deploys op ≡ true → k ≡ none → Act k h (tests op) k h (some (listens op))
  -- the cluster IP is unknown
  no_address :
      (op : Op)
      → deploys op ≡ true
      → needs_client op ≡ true
      → k ≡ none
      → Act k h (tests op) k h (some ends)
  -- an address or the port cannot be had
  listen_fails : (op : Op) → Act k h (listens op) k h (some (after op))
  starts : (op : Op) → Act k h (listens op) k (allocate h) (some (assigns op h.next))
  assigned : (op : Op) (a : ℕ) → Act k h (assigns op a) (some a) h (some (after op))
  -- `Remove`
  has_service : (a : ℕ) → k ≡ some a → Act k h (tests remove) k h (some (closes a))
  has_none : k ≡ none → Act k h (tests remove) k h (some ends)
  closes_it :
      (a : ℕ) → h.closed a ≡ false → Act k h (closes a) k (set_closed a true h) (some clears)
  cleared : Act k h clears none h (some ends)
  unlocks : Act k h ends k h none

-- `DeployResource`, with the place of the handler that holds its mutex. A name that is not stored yet is
-- as `&DeployResource{}`.
pub record Entry : Type 0 where
  pub holder : Option Place
  pub fwdsvc : Option ℕ

unfoldable pub put : String → Entry → (String → Entry) → String → Entry
put n e f m = if m == n then e else f m

-- Where the goroutine of `DeployFwdLM` stands: before it reads `res.fwdsvc`, with what it has read and not
-- yet at `Suspend`, from `Suspend` to the end of `Resume`, or returned.
pub data Stage : Type 0 where
  prepares over : Stage
  holds : Option ℕ → Stage
  suspends : ℕ → Stage

pub record Migration : Type 0 where
  pub name : String
  pub stage : Stage

-- One step of it, where the entry keeps `k`.
pub data Go (k : Option ℕ) : Stage → Stage → Type 0 where
  gives_up : Go k prepares over
  captures : Go k prepares (holds k)
  aborts : (o : Option ℕ) → Go k (holds o) over
  reaches_suspend : (a : ℕ) → Go k (holds (some a)) (suspends a)
  resumes : (a : ℕ) → Go k (suspends a) over

pub data Moves (es : String → Entry) : List Migration → List Migration → Type 0 where
  this :
      (m : Migration) {g : Stage} {ms : List Migration}
      → Go (es m.name).fwdsvc m.stage g
      → Moves es (m ∷ ms) (record m { stage = g } ∷ ms)
  later : (m : Migration) {ms ns : List Migration} → Moves es ms ns → Moves es (m ∷ ms) (m ∷ ns)

-- What ends the program: a second `Close` of a service, a `Suspend` of a nil service, or a `Close` of a
-- forwarder that has no connection to its client yet, in `CloseAllForwarders`.
pub data Crash : Type 0 where
  closed_twice nil_service nil_conn : Crash

pub record Core : Type 0 where
  pub entries : String → Entry
  pub heap : Heap
  pub migrations : List Migration
  pub crash : Option Crash

-- Some goroutine is to migrate with a nil service.
abbrev pub HasNil : List Migration → Type 0
HasNil [] = ⊥
HasNil (m ∷ ms) = (m.stage ≡ holds none) ⊎ HasNil ms

-- Some goroutine is between the call of `Suspend` and the end of `Resume`.
abbrev pub IsSuspending : List Migration → Type 0
IsSuspending [] = ⊥
IsSuspending (m ∷ ms) = ((a : ℕ) × (m.stage ≡ suspends a)) ⊎ IsSuspending ms

pub data Step (s : Core) : Core → Type 0 where
  -- a handler for a request gets the mutex
  locks :
      (n : String) (op : Op)
      → (s.entries n).holder ≡ none
      → Step s (record s {
        entries = put n (record (s.entries n) { holder = some (begins op) }) s.entries;
      })
  acts :
      (n : String) {p : Place} {k : Option ℕ} {h : Heap} {o : Option Place}
      → (s.entries n).holder ≡ some p
      → Act (s.entries n).fwdsvc s.heap p k h o
      → Step s
          (record s { entries = put n (record { holder = o; fwdsvc = k }) s.entries; heap = h })
  spawned :
      (n : String)
      → (s.entries n).holder ≡ some spawns
      → Step s (record s {
        entries = put n (record (s.entries n) { holder = some ends }) s.entries;
        migrations = record { name = n; stage = prepares } ∷ s.migrations;
      })
  closes_twice :
      (n : String) (a : ℕ)
      → (s.entries n).holder ≡ some (closes a)
      → s.heap.closed a ≡ true
      → Step s (record s { crash = some closed_twice })
  migrates :
      {ms : List Migration}
      → Moves s.entries s.migrations ms
      → Step s (record s { migrations = ms })
  suspends_nil : HasNil s.migrations → Step s (record s { crash = some nil_service })
  -- whether `Accept` was called on each forwarder of the service is left open
  closes_unaccepted : IsSuspending s.migrations → Step s (record s { crash = some nil_conn })

-- `NewAPICore`
abbrev pub begun : Core
begun = record {
  entries = λ n. record { holder = none; fwdsvc = none };
  heap = record { closed = λ a. false; next = 0 };
  migrations = [];
  crash = none;
}

-- A panic ends the program.
pub data Reach (s : Core) : Core → Type 0 where
  here : Reach s s
  next : {t u : Core} → Reach s t → t.crash ≡ none → Step t u → Reach s u

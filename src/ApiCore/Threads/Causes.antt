-- ===== src/ApiCore/Threads/Causes.antt =====
-- What makes the goroutines of server/api-core.go use a forwarding service that is nil or closed: a
-- `Remove`, or a `DeployFwdLM` that goes on without one.
use container_cloudlet.Common.{
  ℕ, String, ◌≡◌, ◌≢◌, refl, sym, subst, ◌⊎◌, inl, inr, Bool, true, false, Option, none, some, List,
  [], ◌∷◌, arith, ◌==◌, string_eq, str_iff, if◌then◌else◌,
}
use container_cloudlet.ApiCore.Threads.{
  Op, new_app, fwd, lm, fwd_lm, dump_start, remove, Place, begins, tests, listens, assigns, spawns,
  ends, clears, closes, first, after, Heap, Act, goes_on, no_client, finds, finds_none, no_address,
  listen_fails, starts, assigned, has_service, has_none, closes_it, cleared, unlocks, Entry, put,
  Stage, prepares, over, holds, suspends, Migration, Go, gives_up, captures, aborts,
  reaches_suspend, resumes, Moves, this, later, Crash, Core, HasNil, Step, locks, acts, spawned,
  closes_twice, migrates, suspends_nil, closes_unaccepted, nil_conn, begun, Reach, here, next,
}
use container_cloudlet.ApiCore.Threads.Ops.{by_first, by_after}

-- A `Remove` begins, or the goroutine of a `DeployFwdLM` is started where no service is kept.
abbrev pub Cause : {s t : Core} → Step s t → Type 0
Cause (locks n op e) = op ≡ remove
Cause (acts n e a) = ⊥
Cause {s} (spawned n e) = (s.entries n).fwdsvc ≡ none
Cause (closes_twice n a e c) = ⊥
Cause (migrates m) = ⊥
Cause (suspends_nil h) = ⊥
Cause (closes_unaccepted h) = ⊥

-- On the run there was such a step.
abbrev pub Caused : {s t : Core} → Reach s t → Type 0
Caused here = ⊥
Caused (next r c st) = Caused r ⊎ Cause st

-- The place of a handler that is no `Remove`.
abbrev Stays : Option Place → Type 0
Stays (some (begins op)) = op ≢ remove
Stays (some (tests op)) = op ≢ remove
Stays (some (closes a)) = ⊥
Stays (some clears) = ⊥
Stays (some (listens op)) = Unit
Stays (some (assigns op a)) = Unit
Stays (some spawns) = Unit
Stays (some ends) = Unit
Stays none = Unit

abbrev Keeps : Option ℕ → Type 0
Keeps k = (a : ℕ) × (k ≡ some a)

-- A goroutine of `DeployFwdLM` has read a service, or finds one.
abbrev Served : Option ℕ → Stage → Type 0
Served k prepares = Keeps k
Served k (holds none) = ⊥
Served k (holds (some a)) = Unit
Served k (suspends a) = Unit
Served k over = Unit

abbrev AllServed : (String → Entry) → List Migration → Type 0
AllServed es [] = Unit
AllServed es (m ∷ ms) = Served (es m.name).fwdsvc m.stage × AllServed es ms

record IsSafe (s : Core) : Type 0 where
  stays : (n : String) → Stays (s.entries n).holder
  served : AllServed s.entries s.migrations
  calm : (x : Crash) → s.crash ≡ some x → x ≡ nil_conn

first-Stays : (op : Op) → op ≢ remove → Stays (some (first op))
first-Stays op d = by_first (λ p. Stays (some p)) op tt (λ q. d)

after-Stays : (op : Op) → Stays (some (after op))
after-Stays op = by_after (λ p. Stays (some p)) op tt tt

-- A step of a handler that is no `Remove` drops no service.
Act-Stays :
    {k k' : Option ℕ} {h h' : Heap} {p : Place} {o : Option Place}
    → Act k h p k' h' o
    → Stays (some p)
    → Stays o × (Keeps k → Keeps k')
Act-Stays (goes_on op) d = (first-Stays op d, λ f. f)
Act-Stays (no_client op c) d = (tt, λ f. f)
Act-Stays (finds op a c e) d = (after-Stays op, λ f. f)
Act-Stays (finds_none op c e) d = (tt, λ f. f)
Act-Stays (no_address op c b e) d = (tt, λ f. f)
Act-Stays (listen_fails op) d = (after-Stays op, λ f. f)
Act-Stays (starts op) d = (tt, λ f. f)
Act-Stays (assigned op a) d = (after-Stays op, λ f. (a, refl))
Act-Stays (has_service a e) d = absurd (d refl)
Act-Stays (has_none e) d = absurd (d refl)
Act-Stays (closes_it a c) d = absurd d
Act-Stays cleared d = absurd d
Act-Stays unlocks d = (tt, λ f. f)

Served-more : (k k' : Option ℕ) (g : Stage) → (Keeps k → Keeps k') → Served k g → Served k' g
Served-more k k' prepares f v = f v
Served-more k k' (holds none) f v = v
Served-more k k' (holds (some a)) f v = v
Served-more k k' (suspends a) f v = v
Served-more k k' over f v = v

module _ (es : String → Entry) (n : String) (e : Entry)
    (f : Keeps (es n).fwdsvc → Keeps e.fwdsvc) where
  put-Keeps : (m : String) → Keeps (es m).fwdsvc → Keeps (put n e es m).fwdsvc
  unfolding put
  put-Keeps m k = by_test (m == n) refl
    where
      by_test : (b : Bool) → (m == n) ≡ b → Keeps (if b then e else es m).fwdsvc
      by_test true q = f (subst (λ x. Keeps (es x).fwdsvc) (ground (arith, str_iff m n)) k)
      by_test false q = k

  put-AllServed : (ms : List Migration) → AllServed es ms → AllServed (put n e es) ms
  put-AllServed [] v = tt
  put-AllServed (m ∷ ms) (v, vs) = (
    Served-more (es m.name).fwdsvc (put n e es m.name).fwdsvc m.stage (put-Keeps m.name) v,
    put-AllServed ms vs,
  )

  put-Stays :
      Stays e.holder
      → ((m : String) → Stays (es m).holder)
      → (m : String) → Stays (put n e es m).holder
  unfolding put
  put-Stays i j m = by_test (m == n)
    where
      by_test : (b : Bool) → Stays (if b then e else es m).holder
      by_test true = i
      by_test false = j m

Go-Served : (k : Option ℕ) {g g' : Stage} → Go k g g' → Served k g → Served k g'
Go-Served k gives_up v = tt
Go-Served k captures (a, e) = subst (λ o. Served k (holds o)) (sym e) tt
Go-Served k (aborts o) v = tt
Go-Served k (reaches_suspend a) v = tt
Go-Served k (resumes a) v = tt

Moves-AllServed :
    (es : String → Entry) {ms ns : List Migration}
    → Moves es ms ns
    → AllServed es ms
    → AllServed es ns
Moves-AllServed es (this m g) (v, vs) = (Go-Served (es m.name).fwdsvc g v, vs)
Moves-AllServed es (later m r) (v, vs) = (v, Moves-AllServed es r vs)

served_no_nil : (es : String → Entry) (ms : List Migration) → AllServed es ms → HasNil ms → ⊥
served_no_nil es [] v h = h
served_no_nil es (m ∷ ms) (v, vs) (inl e) = subst (Served (es m.name).fwdsvc) e v
served_no_nil es (m ∷ ms) (v, vs) (inr h) = served_no_nil es ms vs h

is_remove : (op : Op) → (op ≡ remove) ⊎ (op ≢ remove)
is_remove remove = inl refl
is_remove new_app = inr (λ e. cc)
is_remove fwd = inr (λ e. cc)
is_remove lm = inr (λ e. cc)
is_remove fwd_lm = inr (λ e. cc)
is_remove dump_start = inr (λ e. cc)

is_none : (k : Option ℕ) → (k ≡ none) ⊎ Keeps k
is_none none = inl refl
is_none (some a) = inr (a, refl)

module _ (s : Core) (v : IsSafe s) where
  -- A step that writes the entry of `n`.
  put-IsSafe :
      (n : String) (e : Entry) (h : Heap)
      → Stays e.holder
      → (Keeps (s.entries n).fwdsvc → Keeps e.fwdsvc)
      → IsSafe (record s { entries = put n e s.entries; heap = h })
  put-IsSafe n e h i f = record {
    stays = put-Stays s.entries n e f i v.stays;
    served = put-AllServed s.entries n e f s.migrations v.served;
    calm = v.calm;
  }

  of_holder : (n : String) (p : Place) → (s.entries n).holder ≡ some p → Stays (some p)
  of_holder n p e = subst Stays e (v.stays n)

  Step-IsSafe : {t : Core} (st : Step s t) → Cause st ⊎ IsSafe t
  Step-IsSafe (locks n op e) = elim (is_remove op) [
    | inl q ↦ inl q
    | inr d ↦ inr (put-IsSafe n _ s.heap d (λ k. k))
  ]
  Step-IsSafe (acts n {p} {h = h} e a) =
      let (i, f) = Act-Stays a (of_holder n p e) in inr (put-IsSafe n _ h i f)
  Step-IsSafe (spawned n e) = elim (is_none (s.entries n).fwdsvc) [
    | inl q ↦ inl q
    | inr k ↦
        let e : Entry = record (s.entries n) { holder = some ends } in
        let w = put-IsSafe n e s.heap tt (λ k. k) in
        inr (record {
          stays = w.stays;
          served = (put-Keeps s.entries n e (λ k. k) n k, w.served);
          calm = v.calm;
        })
  ]
  Step-IsSafe (closes_twice n a e c) = absurd (of_holder n (closes a) e)
  Step-IsSafe (migrates m) =
      inr (record { stays = v.stays; served = Moves-AllServed s.entries m v.served; calm = v.calm })
  Step-IsSafe (suspends_nil h) = absurd (served_no_nil s.entries s.migrations v.served h)
  Step-IsSafe (closes_unaccepted h) =
      inr (record { stays = v.stays; served = v.served; calm = λ x e. cc })

Reach-IsSafe : {s : Core} (r : Reach begun s) → Caused r ⊎ IsSafe s
Reach-IsSafe here = inr (record { stays = λ n. tt; served = tt; calm = λ x e. cc })
Reach-IsSafe (next {t} r c st) = elim (Reach-IsSafe r) [
  | inl k ↦ inl (inl k)
  | inr v ↦ elim (Step-IsSafe t v st) [ inl k ↦ inl (inr k) | inr w ↦ inr w ]
]

-- On each run that ends the program by a `Suspend` of a nil service or by a second `Close` of a service, and
-- not by a `Close` of a forwarder without its client's connection, a `Remove` has begun, or the goroutine
-- of a `DeployFwdLM` was started where no service was kept: where neither happens, no order of the
-- goroutines leads to one of these two panics.
pub crash-Caused :
    {s : Core} (r : Reach begun s) (x : Crash) → s.crash ≡ some x → x ≢ nil_conn → Caused r
crash-Caused r x e d = elim (Reach-IsSafe r) [ inl k ↦ k | inr v ↦ absurd (d (v.calm x e)) ]

-- ===== src/ApiCore/Threads/Runs.antt =====
-- Runs of the goroutines of server/api-core.go in which one handler goes on alone.
use container_cloudlet.Common.{
  ℕ, String, ◌≡◌, ◌≢◌, refl, sym, subst, ◌∙◌, ap, Option, none, some, List, arith, string_eq,
  str_iff,
}
use container_cloudlet.ApiCore.Threads.{
  Op, Place, begins, Heap, Act, Entry, put, Migration, Core, Step, locks, acts, Reach, here, next,
}

-- Several steps of a handler.
pub data Acts (k : Option ℕ) (h : Heap) (p : Place) : Option ℕ → Heap → Option Place → Type 0 where
  stays : Acts k h p k h (some p)
  more :
      {k₁ k₂ : Option ℕ} {h₁ h₂ : Heap} {q : Place} {o : Option Place}
      → Acts k h p k₁ h₁ (some q)
      → Act k₁ h₁ q k₂ h₂ o
      → Acts k h p k₂ h₂ o

-- The place of the handler for `n`, the service that the entry keeps, the services and the other
-- goroutines, in a program that runs.
pub record Now (s : Core) (n : String) (o : Option Place) (k : Option ℕ) (h : Heap)
    (ms : List Migration) : Type 0 where
  pub holder : (s.entries n).holder ≡ o
  pub fwdsvc : (s.entries n).fwdsvc ≡ k
  pub heap : s.heap ≡ h
  pub migrations : s.migrations ≡ ms
  pub calm : s.crash ≡ none

put_other : (n m : String) (e : Entry) (es : String → Entry) → m ≢ n → put n e es m ≡ es m
unfolding put
put_other n m e es d = ground (arith, str_iff m n)

put_self : (n : String) (e : Entry) (es : String → Entry) → put n e es n ≡ e
unfolding put
put_self n e es = ground (arith, str_iff n n)

-- Steps that leave the entries of other names as they are.
pub record Leads (n : String) (s t : Core) : Type 0 where
  pub reach : Reach s t
  pub others : (m : String) → m ≢ n → t.entries m ≡ s.entries m

pub Reach-trans : {s t u : Core} → Reach s t → Reach t u → Reach s u
Reach-trans r here = r
Reach-trans r (next q c st) = next (Reach-trans r q) c st

module _ {n : String} where
  pub Leads-refl : (s : Core) → Leads n s s
  Leads-refl s = record { reach = here; others = λ m d. refl }

  pub Leads-trans : {s t u : Core} → Leads n s t → Leads n t u → Leads n s u
  Leads-trans r q = record {
    reach = Reach-trans r.reach q.reach;
    others = λ m d. q.others m d ∙ r.others m d;
  }

  -- One step, which writes the entry of `n`.
  pub Leads-step :
      {s t : Core} (e : Entry)
      → s.crash ≡ none
      → Step s t
      → t.entries ≡ put n e s.entries
      → Leads n s t
  Leads-step {s} e c st q = record {
    reach = next here c st;
    others = λ m d. ap (λ f. f m) q ∙ put_other n m e s.entries d;
  }

module _ {n : String} {ms : List Migration} where
  -- After a new entry for `n`.
  pub Now-put :
      {s : Core} {o : Option Place} {k k' : Option ℕ} {h : Heap} (e : Entry) (h' : Heap)
      → Now s n o k h ms
      → e.fwdsvc ≡ k'
      → Now (record s { entries = put n e s.entries; heap = h' }) n e.holder k' h' ms
  Now-put {s} e h' w q = record {
    holder = ap (λ x. x.holder) (put_self n e s.entries);
    fwdsvc = ap (λ x. x.fwdsvc) (put_self n e s.entries) ∙ q;
    heap = refl;
    migrations = w.migrations;
    calm = w.calm;
  }

  runs_one :
      {s : Core} {k : Option ℕ} {h : Heap} {p : Place} {k' : Option ℕ} {h' : Heap}
      {o : Option Place}
      → Now s n (some p) k h ms
      → Act k h p k' h' o
      → (t : Core) × Leads n s t × Now t n o k' h' ms
  runs_one {s} {h = h} {p} {k'} {h'} {o} w a =
      let e : Entry = record { holder = o; fwdsvc = k' } in
      let b = subst (λ j. Act j h p k' h' o) (sym w.fwdsvc) a in
      let c = subst (λ g. Act (s.entries n).fwdsvc g p k' h' o) (sym w.heap) b in
      (
        record s { entries = put n e s.entries; heap = h' },
        Leads-step e w.calm (acts n w.holder c) refl,
        Now-put e h' w refl,
      )

  pub runs :
      {s : Core} {k : Option ℕ} {h : Heap} {p : Place} {k' : Option ℕ} {h' : Heap}
      {o : Option Place}
      → Now s n (some p) k h ms
      → Acts k h p k' h' o
      → (t : Core) × Leads n s t × Now t n o k' h' ms
  runs {s} w stays = (s, Leads-refl s, w)
  runs w (more a b) =
      let (t, r, v) = runs w a in let (u, q, x) = runs_one v b in (u, Leads-trans r q, x)

  -- A handler comes, where no other holds the mutex.
  pub runs_lock :
      {s : Core} {k : Option ℕ} {h : Heap} (op : Op)
      → Now s n none k h ms
      → (t : Core) × Leads n s t × Now t n (some (begins op)) k h ms
  runs_lock {s} {k} {h} op w =
      let e : Entry = record (s.entries n) { holder = some (begins op) } in
      let v = Now-put e s.heap w w.fwdsvc in
      let t : Core = record s { entries = put n e s.entries } in
      (
        t,
        Leads-step e w.calm (locks n op w.holder) refl,
        record {
          holder = v.holder;
          fwdsvc = v.fwdsvc;
          heap = w.heap;
          migrations = w.migrations;
          calm = w.calm;
        },
      )

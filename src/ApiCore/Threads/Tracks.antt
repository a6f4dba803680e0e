-- ===== src/ApiCore/Threads/Tracks.antt =====
-- What the goroutines of `DeployFwdLM` of server/api-core.go have read of the entries, across a step of one
-- handler.
use container_cloudlet.Common.{
  ℕ, ◌<◌, String, ◌≡◌, ◌⊎◌, inl, inr, true, Option, none, some, List, [], ◌∷◌, nat_eq, string_eq,
}
use container_cloudlet.ApiCore.Threads.{
  Place, begins, tests, listens, assigns, spawns, ends, clears, closes, Heap, Entry, Stage,
  prepares, over, holds, suspends, Migration,
}
use container_cloudlet.ApiCore.Threads.Refs.{Effect, IsPut, kept_or_closed, closed_still}
use container_cloudlet.ApiCore.Threads.Places.{Sound, ref}

-- The services that the entries refer to.
abbrev pub refs : (String → Entry) → String → Option ℕ
refs es n = ref (es n).holder (es n).fwdsvc

-- The service that a goroutine of `DeployFwdLM` for `name` has read is closed, or the entry still refers
-- to it.
abbrev pub Follows : (String → Option ℕ) → Heap → String → ℕ → Type 0
Follows r h name a = (a < h.next) × ((h.closed a ≡ true) ⊎ (r name ≡ some a))

abbrev pub Tracks : (String → Option ℕ) → Heap → String → Stage → Type 0
Tracks r h name prepares = Unit {0}
Tracks r h name over = Unit {0}
Tracks r h name (holds none) = Unit {0}
Tracks r h name (holds (some a)) = Follows r h name a
Tracks r h name (suspends a) = Follows r h name a

abbrev pub AllTrack : (String → Option ℕ) → Heap → List Migration → Type 0
AllTrack r h [] = Unit
AllTrack r h (m ∷ ms) = Tracks r h m.name m.stage × AllTrack r h ms

module _ {h h' : Heap} {x : Option ℕ} (r r' : String → Option ℕ) (n : String)
    (f : Effect h (r n) x h') (p : IsPut r n x r') where
  Follows-still : (name : String) (a : ℕ) → Follows r h name a → Follows r' h' name a
  Follows-still name a (l, inl c) = let (l', k) = closed_still f a l in (l', inl (k c))
  Follows-still name a (l, inr e) =
      let (l', k) = closed_still f a l in
      (l', elim (kept_or_closed r n r' f p name a e) [ inl q ↦ inr q | inr q ↦ inl q ])

  Tracks-still : (name : String) (g : Stage) → Tracks r h name g → Tracks r' h' name g
  Tracks-still name prepares t = tt
  Tracks-still name over t = tt
  Tracks-still name (holds none) t = tt
  Tracks-still name (holds (some a)) t = Follows-still name a t
  Tracks-still name (suspends a) t = Follows-still name a t

  pub AllTrack-still : (ms : List Migration) → AllTrack r h ms → AllTrack r' h' ms
  AllTrack-still [] t = tt
  AllTrack-still (m ∷ ms) (t, ts) = (Tracks-still m.name m.stage t, AllTrack-still ms ts)

-- The service that is read is the one that the entry refers to.
pub kept-ref :
    (h : Heap) (k : Option ℕ) (o : Option Place) (a : ℕ)
    → Sound h k o
    → k ≡ some a
    → ref o k ≡ some a
kept-ref h k none a s e = e
kept-ref h k (some (listens op)) a s e = e
kept-ref h k (some (assigns op b)) a (i, l, c) e = absurd (cc)
kept-ref h k (some (closes b)) a s e = e
kept-ref h k (some clears) a s e = e
kept-ref h k (some (begins op)) a s e = e
kept-ref h k (some (tests op)) a s e = e
kept-ref h k (some spawns) a s e = e
kept-ref h k (some ends) a s e = e

-- ===== src/Lm/Dump/Answers.antt =====
-- The whole run of the loop of `LM_DumpService.Start` (server/lm.go) on one connection.
use container_cloudlet.Common.{
  ℕ, ◌+◌, ◌≡◌, refl, ap, Bool, true, false, Option, none, some, List, [], ◌∷◌,
}
use container_cloudlet.Go.{GoError}
use container_cloudlet.KubeExec.{Executor}
use container_cloudlet.Lm.Dump.{Service, handle_request}
use container_cloudlet.Lm.Dump.Serve.{
  Incoming, byte, failure, nothing, Round, Served, receive, serve, prepend,
}

abbrev asked_before : Incoming → Option GoError → List ℕ → List ℕ
asked_before (byte b) none bs = b ∷ bs
asked_before (byte b) (some e) bs = b ∷ []
asked_before (failure e) we bs = []
asked_before nothing we bs = []

-- The bytes up to the first read that fails or brings none, or the first reply that cannot be written,
-- its request included.
abbrev pub asked : List Round → List ℕ
asked [] = []
asked (r ∷ rs) = asked_before r.incoming r.write_error (asked rs)

abbrev ends_before : Incoming → Option GoError → Bool → Bool
ends_before (byte b) none end = end
ends_before (byte b) (some e) end = true
ends_before (failure e) we end = true
ends_before nothing we end = true

-- Whether there is such a read or such a reply.
abbrev pub has_end : List Round → Bool
has_end [] = false
has_end (r ∷ rs) = ends_before r.incoming r.write_error (has_end rs)

module _ {W : Type 0} (x : Executor W) (p : Service) where
  abbrev before : ℕ → List ℕ × W → List ℕ × W
  before resp (rs, w) = (resp ∷ rs, w)

  -- The requests one by one, with their numbers from `i` on: the replies, and the world behind them.
  abbrev pub in_order : ℕ → List ℕ → W → List ℕ × W
  in_order i [] w = ([], w)
  in_order i (b ∷ bs) w =
      let (resp, w') = handle_request x p i b w in before resp (in_order (i + 1) bs w')

  abbrev pub expected : ℕ → List ℕ → Bool → W → Served × W
  expected i bs end w =
      let (replies, w') = in_order i bs w in (record { replies = replies; stopped = end }, w')

  receive-expected :
      (i : ℕ) (m : Incoming) (we : Option GoError) (rest : W → Served × W) (bs : List ℕ)
      (end : Bool)
      → ((w : W) → rest w ≡ expected (i + 1) bs end w)
      → (w : W)
      → receive x p i m we rest w ≡ expected i (asked_before m we bs) (ends_before m we end) w
  receive-expected i (byte b) none rest bs end h w =
      let reply = handle_request x p i b w in ap (prepend reply.0) (h reply.1)
  receive-expected i (byte b) (some e) rest bs end h w = refl
  receive-expected i (failure e) we rest bs end h w = refl
  receive-expected i nothing we rest bs end h w = refl

  -- Whatever the reads and the writes on one connection yield, the loop answers the bytes up to the first
  -- read that fails or brings none, or the first reply that cannot be written: each once, in order, and
  -- with increasing numbers. It returns exactly if there is such a read or such a reply.
  pub serve-expected :
      (rs : List Round) (i : ℕ) (w : W) → serve x p i rs w ≡ expected i (asked rs) (has_end rs) w
  unfolding serve
  serve-expected [] i w = refl
  serve-expected (r ∷ rs) i w =
      receive-expected i r.incoming r.write_error (serve x p (i + 1) rs) (asked rs) (has_end rs)
        (λ w'. serve-expected rs (i + 1) w') w

-- ===== src/Lm/Migration.antt =====
-- Both sides of server/lm.go together: the requests of `LM_Restore` against the loop of
-- `LM_DumpService`, over a connection that loses nothing, and a container that records what it runs.
use container_cloudlet.Common.{
  ℕ, zero, suc, ◌+◌, ◌≡◌, String, Bool, true, false, not, Option, none, some, List, [], ◌∷◌, ◌++◌,
  arith, append_assoc,
}
use container_cloudlet.Go.{GoError, Result, ok, fail, failed, new_error, Try, ◌>>=◌, ◌>>◌}
use container_cloudlet.KubeExec.{Executor, execute_pod}
use container_cloudlet.Lm.{req_pre_dump, req_dump}
use container_cloudlet.Lm.Dump.{Service, handle_request, pre_dump_script, dump_script}
use container_cloudlet.Lm.Messages.{Conn, send_dump_service_request, pre_dumps}

-- What ran in the container, in order; `verdict` says which command fails.
abbrev pub recorder : (List String → Option GoError) → Executor (List (List String))
recorder verdict = record {
  new_spdy_executor = λ o w. (none, w);
  stream = λ o w. ((verdict o.command, ""), w ++ o.command ∷ []);
}

-- The service's loop at the head of its `itercnt`-th round, with the reply that was not read yet.
pub record Link : Type 0 where
  pub itercnt : ℕ
  pub pending : Option ℕ
  pub ran : List (List String)

module _ (svc : Service) (verdict : List String → Option GoError) where
  abbrev served : ℕ → ℕ × List (List String) → Link
  served itercnt (resp, w) = record { itercnt = itercnt + 1; pending = some resp; ran = w }

  -- A request runs one round of the loop.
  abbrev deliver : List ℕ → Link → Link
  deliver [] l = l
  deliver (b ∷ bs) l = served l.itercnt (handle_request (recorder verdict) svc l.itercnt b l.ran)

  abbrev pub link : Conn Link
  link = record {
    write = λ bs l. (none, deliver bs l);
    read_byte = λ l. ((l.pending, none), record l { pending = none });
    reads = λ l. ([], l);
    close = λ l. l;
  }

  -- What the destination host asks for: `n` pre-dumps and the final dump.
  unfoldable pub dumps : ℕ → Try Link (Unit {0})
  dumps n = do pre_dumps link n; send_dump_service_request link req_dump

  abbrev shell : String → List String
  shell script = "/bin/sh" ∷ "-c" ∷ script ∷ []

  -- The commands of a whole migration from round `i` on: numbered pre-dumps, then the final dump.
  abbrev pub plan : ℕ → ℕ → List (List String)
  plan i zero = shell (dump_script svc i) ∷ []
  plan i (suc n) = shell (pre_dump_script svc i) ∷ plan (i + 1) n

  -- Commands in order, up to the first that fails; and whether none does.
  abbrev pub run_until_failure : List (List String) → List (List String) × Bool
  run_until_failure [] = ([], true)
  run_until_failure (c ∷ cs) =
      let rest = run_until_failure cs in
      elim (verdict c) [ none ↦ (c ∷ rest.0, rest.1) | some e ↦ (c ∷ [], false) ]

  abbrev outcome : Option GoError → Result (Unit {0})
  outcome none = ok tt
  outcome (some e) = fail (new_error "Dump service respond an error")

  abbrev at : ℕ → Option ℕ → List (List String) → Link
  at i pending ran = record { itercnt = i; pending = pending; ran = ran }

  pre_dump_request :
      (i : ℕ) (pending : Option ℕ) (ran : List (List String))
      → send_dump_service_request link req_pre_dump (at i pending ran) ≡ (
        outcome (verdict (shell (pre_dump_script svc i))),
        at (i + 1) none (ran ++ shell (pre_dump_script svc i) ∷ []),
      )
  unfolding send_dump_service_request handle_request execute_pod ◌>>=◌
  pre_dump_request i pending ran = ground arith

  dump_request :
      (i : ℕ) (pending : Option ℕ) (ran : List (List String))
      → send_dump_service_request link req_dump (at i pending ran) ≡ (
        outcome (verdict (shell (dump_script svc i))),
        at (i + 1) none (ran ++ shell (dump_script svc i) ∷ []),
      )
  unfolding send_dump_service_request handle_request execute_pod ◌>>=◌
  dump_request i pending ran = ground arith

  -- A migration from round `i` on, with what ran before it.
  dumps_from :
      (n i : ℕ) (pending : Option ℕ) (ran : List (List String))
      → let r = dumps n (at i pending ran) in
        let expected = run_until_failure (plan i n) in
        (r.1.ran ≡ ran ++ expected.0) × (failed r.0 ≡ not expected.1)
  unfolding dumps pre_dumps ◌>>=◌
  dumps_from zero i pending ran = ground (arith, dump_request i pending ran)
  dumps_from (suc n) i pending ran =
      let c = shell (pre_dump_script svc i) in
      ground (
        arith,
        pre_dump_request i pending ran,
        dumps_from n (i + 1) none (ran ++ c ∷ []),
        append_assoc ran (c ∷ []) (run_until_failure (plan (i + 1) n)).0,
      )

  -- Whatever commands fail: for `n` pre-dumps asked of a fresh service, the container runs the pre-dumps
  -- with the numbers 1 to `n` in order, and then the final dump as
  -- number `n + 1`, up to the first command that fails and no further; and the destination host sees
  -- a success exactly if none fails.
  pub dumps-plan :
      (n : ℕ)
      → let r = dumps n (at 1 none []) in
        let expected = run_until_failure (plan 1 n) in
        (r.1.ran ≡ expected.0) × (failed r.0 ≡ not expected.1)
  dumps-plan n = dumps_from n 1 none []

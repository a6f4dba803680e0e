-- ===== src/ApiCore/Threads/Ops.antt =====
-- Where a handler of server/api-core.go stands behind `NewClient` and behind the forwarding service, by what
-- it does.
use container_cloudlet.Common.{◌≢◌}
use container_cloudlet.ApiCore.Threads.{
  Op, new_app, fwd, lm, fwd_lm, dump_start, remove, Place, tests, spawns, ends, first, after,
}

pub by_first :
    (P : Place → Type 0) (op : Op) → P ends → (op ≢ dump_start → P (tests op)) → P (first op)
by_first P new_app e t = t (λ q. cc)
by_first P fwd e t = t (λ q. cc)
by_first P lm e t = t (λ q. cc)
by_first P fwd_lm e t = t (λ q. cc)
by_first P dump_start e t = e
by_first P remove e t = t (λ q. cc)

pub by_after : (P : Place → Type 0) (op : Op) → P spawns → P ends → P (after op)
by_after P new_app s e = e
by_after P fwd s e = e
by_after P lm s e = e
by_after P fwd_lm s e = s
by_after P dump_start s e = e
by_after P remove s e = e

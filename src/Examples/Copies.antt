-- ===== src/Examples/Copies.antt =====
-- Runs of the byte-level code: server/bufque.go, server/fwd.go's streams, server/io.go.
use container_cloudlet.Common.{
  String, ℕ, ◌≡◌, refl, false, none, some, List, [], ◌∷◌, ◌++◌, pos, arith,
}
use container_cloudlet.Go.{ok, eof}
use container_cloudlet.Io.{readline, before_newline, drop_cr}
use container_cloudlet.Io.Chunks.{arrive, readline-arrive}
use container_cloudlet.BufferQueue.{BufferQueueKey, new_buffer_queue, buffered}
use container_cloudlet.BufferQueue.Spec.{spec_answers, spec_after_all, answers, calls_refine}
use container_cloudlet.BufferQueue.Conservation.{
  Call, adds, removes, after_all, handed_all, given_all, calls_conserve,
}
use container_cloudlet.Forwarder.{fresh_conn}
use container_cloudlet.Forwarder.Lifecycle.{Reach, made}
use container_cloudlet.Forwarder.Dial.{DialEnv, accept}
use container_cloudlet.Forwarder.Accepts.{LeadsOn, accept-LeadsOn}
use container_cloudlet.Forwarder.Stream.{Float, Round, upstream}
use container_cloudlet.Forwarder.Copy.{IsCopy, upstream-IsCopy}

abbrev key : BufferQueueKey
key = record { app_id = "app"; client_id = "client" }

abbrev other : BufferQueueKey
other = record { app_id = "app"; client_id = "other" }

abbrev calls : List Call
calls = adds key (1 ∷ 2 ∷ []) ∷ removes key ∷ adds key (3 ∷ []) ∷ []

calls_conserve_example :
    handed_all key new_buffer_queue calls ++ buffered (after_all new_buffer_queue calls) key
    ≡ buffered new_buffer_queue key ++ given_all key calls
calls_conserve_example = calls_conserve key new_buffer_queue calls

-- Two calls of `add` for one key, another key between them, and both removed.
abbrev mixed : List Call
mixed =
    adds key (1 ∷ []) ∷ adds other (9 ∷ []) ∷ adds key (2 ∷ []) ∷ removes key ∷ removes other ∷ []

calls_refine_example :
    (answers new_buffer_queue mixed ≡ spec_answers (buffered new_buffer_queue) mixed)
    × (buffered (after_all new_buffer_queue mixed)
        ≡ spec_after_all (buffered new_buffer_queue) mixed)
calls_refine_example = calls_refine new_buffer_queue mixed

abbrev pieces : List (List ℕ)
pieces = (b'o' ∷ []) ∷ (b'k' ∷ b'\r' ∷ b'\n' ∷ b'x' ∷ []) ∷ []

readline-arrive_example :
    readline (arrive pieces ++ []) ≡ some (ok (drop_cr (b'o' ∷ b'k' ∷ b'\r' ∷ [])))
unfolding before_newline
readline-arrive_example =
    readline-arrive pieces (b'o' ∷ b'k' ∷ b'\r' ∷ []) [] ((λ p. cc), ((λ p. cc), tt)) refl
      (omega arith)

abbrev whole : Float
whole = record {
  F = ℕ;
  of_int = λ z. 0;
  seconds = λ n. n;
  mul = λ a b. a;
  div = λ a b. a;
  sub = λ a b. a;
  is_positive = λ a. false;
  to_ns = λ a. pos a;
}

-- A chunk, and then the end with the last one.
abbrev rounds : List Round
rounds =
    (record {
      emergency = false;
      chunk = 1 ∷ 2 ∷ [];
      read_error = none;
      written = 2;
      write_error = none;
      write_ns = 5;
    })
    ∷ (record {
      emergency = false;
      chunk = 3 ∷ [];
      read_error = some eof;
      written = 1;
      write_error = none;
      write_ns = 5;
    })
    ∷ []

upstream-IsCopy_example : IsCopy rounds (upstream whole (pos 10) rounds)
upstream-IsCopy_example =
    upstream-IsCopy whole (pos 10) rounds ((omega arith, λ e. refl), ((omega arith, λ e. refl), tt))

abbrev dial_env : DialEnv (Unit {0}) String
dial_env = record {
  resolve_tcp_addr = λ network addr w. ((none, addr), w);
  dial_tcp = λ network laddr raddr w. ((some eof, fresh_conn), w);
}

accept-LeadsOn_example :
    LeadsOn
      (pos 10)
      (accept dial_env "172.17.0.1" "tcp" "10.0.0.1:80" (made (pos 10)).fwdr fresh_conn tt).0
unfolding made
accept-LeadsOn_example =
    accept-LeadsOn dial_env "172.17.0.1" "tcp" "10.0.0.1:80" fresh_conn tt Reach.here refl

-- ===== src/Forwarder/Stream.antt =====
-- The loops `upstream` and `downstream` of server/fwd.go over what the sockets yield, one record for
-- each round. Floating point is a parameter. Where the rounds end the loop waits in `Read`.
use container_cloudlet.Common.{
  ℕ, Bool, Option, none, some, List, [], ◌∷◌, ◌++◌, ℤ, pos, is_pos, to_int64, take, if◌then◌else◌,
  suc,
}
use container_cloudlet.Go.{GoError}

-- float64 as `upstream` computes with it
pub record Float : Type 1 where
  pub F : Type 0
  pub of_int : ℤ → F
  -- a time in nanoseconds, as seconds
  pub seconds : ℕ → F
  pub mul : F → F → F
  pub div : F → F → F
  pub sub : F → F → F
  pub is_positive : F → Bool
  -- `f*1000000000` as a whole number, in nanoseconds, of which `time.Duration` has 64 bits
  pub to_ns : F → ℤ

pub record Round : Type 0 where
  -- the emergency channel is closed at the head of the loop
  pub emergency : Bool
  -- what `Read` put into the buffer, and its error
  pub chunk : List ℕ
  pub read_error : Option GoError
  -- how many bytes `Write` took, its error, and how many nanoseconds it took
  pub written : ℕ
  pub write_error : Option GoError
  pub write_ns : ℕ

pub data End : Type 0 where
  emergency_closed write_failed read_ended : End

pub record Copied : Type 0 where
  -- what the other side was given
  pub output : List ℕ
  -- what `time.Sleep` was called with, in nanoseconds
  pub pauses : List ℤ
  -- how many rounds reached `Read`
  pub reads : ℕ
  -- why the loop returned
  pub ended : Option End

abbrev pub waiting : Copied
waiting = record { output = []; pauses = []; reads = 0; ended = none }

abbrev pub returns : End → Copied
returns e = record { output = []; pauses = []; reads = 0; ended = some e }

abbrev pub after_round : List ℕ → List ℤ → Copied → Copied
after_round out pauses c = record {
  output = out ++ c.output;
  pauses = pauses ++ c.pauses;
  reads = suc c.reads;
  ended = c.ended;
}

-- The end of a round: the test of `cerr`.
abbrev pub after_read : Option GoError → Copied → Copied
after_read none rest = rest
after_read (some e) rest = returns read_ended

-- The test of `serr`, and then of `cerr`.
abbrev pub after_write : Option GoError → Option GoError → Copied → Copied
after_write none cerr rest = after_read cerr rest
after_write (some e) cerr rest = returns write_failed

module _ (fl : Float) where
  open fl use {F, of_int, seconds, mul, div, sub, is_positive, to_ns}

  -- The sleep after a write of `nw` bytes that took `ns` nanoseconds.
  unfoldable pub pause : ℤ → ℕ → ℕ → List ℤ
  pause data_rate nw ns =
      let rate_bps = mul (of_int data_rate) (of_int (pos 125000)) in
      let time_to_sleep = sub (div (of_int (pos nw)) rate_bps) (seconds ns) in
      if is_pos data_rate
      then if is_positive time_to_sleep then to_int64 (to_ns time_to_sleep) ∷ [] else []
      else []

  abbrev pub up_round : ℤ → Round → List ℕ → Copied → Copied
  up_round data_rate r [] rest = after_round [] [] (after_read r.read_error rest)
  up_round data_rate r (b ∷ bs) rest =
      after_round (take r.written (b ∷ bs)) (pause data_rate r.written r.write_ns)
        (after_write r.write_error r.read_error rest)

  unfoldable pub upstream : ℤ → List Round → Copied
  unfolding pause
  upstream data_rate [] = waiting
  upstream data_rate (r ∷ rs) =
      let rest = up_round data_rate r r.chunk (upstream data_rate rs) in
      if r.emergency then returns emergency_closed else rest

abbrev pub down_round : Round → List ℕ → Copied → Copied
down_round r [] rest = after_round [] [] (after_read r.read_error rest)
down_round r (b ∷ bs) rest =
    after_round (take r.written (b ∷ bs)) [] (after_write r.write_error r.read_error rest)

unfoldable pub downstream : List Round → Copied
downstream [] = waiting
downstream (r ∷ rs) = down_round r r.chunk (downstream rs)

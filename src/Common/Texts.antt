-- ===== src/Common/Texts.antt =====
-- What the server uses of Go's `fmt` and `strings`: the `%d` verb, and `strings.Contains`.
use Prim.Native.Nat.{ℕ, zero, suc, ◌+◌, ◌/◌, ◌%◌}
use Prim.Native.Char.{Char}
use Prim.Native.String.{String, ◌++◌, len, find}
use mathlib.Core.List.{List, [], ◌∷◌}
use mathlib.Core.Bool.{Bool}
use container_cloudlet.Common.Tests.{ltb, leb, if◌then◌else◌}
use container_cloudlet.Common.Ints.{ℤ, pos, negsuc}

pick : List Char → ℕ → Char
pick [] i = "0"
pick (d ∷ ds) zero = d
pick (d ∷ ds) (suc i) = pick ds i

unfoldable pub digit : ℕ → Char
unfolding pick
digit d = pick ("0" ∷ "1" ∷ "2" ∷ "3" ∷ "4" ∷ "5" ∷ "6" ∷ "7" ∷ "8" ∷ "9" ∷ []) d

-- The digits of `n` in front of `out`. A round divides `n` by ten, so more fuel than `n` is enough.
unfoldable pub decimal : ℕ → ℕ → String → String
unfolding digit
decimal zero n out = out
decimal (suc fuel) n out =
    let rest = decimal fuel (n / 10) (String.◌∷◌ (digit (n % 10)) out) in
    if ltb n 10 then String.◌∷◌ (digit n) out else rest

unfoldable pub show_nat : ℕ → String
unfolding decimal
show_nat n = decimal (suc n) n ""

-- The verb `%d`.
unfoldable pub show_int : ℤ → String
unfolding show_nat
show_int (pos n) = show_nat n
show_int (negsuc n) = "-" ++ show_nat (n + 1)

-- `strings.Contains s t`: `find` answers one more than the length where `t` does not occur.
unfoldable pub contains : String → String → Bool
contains s t = leb (find s t) (len s)

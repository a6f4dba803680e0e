-- ===== src/Io.antt =====
-- server/io.go: `Readline`, with the `bufio.Scanner` that it uses, over the results of the reads.
pub mod Chunks
use container_cloudlet.Common.{
  ℕ, suc, ◌+◌, ◌*◌, ◌≡◌, refl, Bool, true, false, ◌&&◌, Option, none, some, List, [], ◌∷◌, ◌++◌,
  length, leb, ltb, if◌then◌else◌, ◌==◌, nat_eq,
}
use container_cloudlet.Go.{GoError, Result, ok, fail, new_error}

-- What one call of `Read` yields.
pub record ReadResult : Type 0 where
  pub bytes : List ℕ
  pub error : Option GoError

-- The bytes before the first newline, if there is one.
unfoldable pub before_newline : List ℕ → Option (List ℕ)
before_newline [] = none
before_newline (c ∷ cs) =
    let rest = before_newline cs in
    if c == b'\n' then some [] else elim rest [ none ↦ none | some l ↦ some (c ∷ l) ]

-- Without one carriage return at the end.
unfoldable pub drop_cr : List ℕ → List ℕ
drop_cr [] = []
drop_cr (c ∷ []) = if c == b'\r' then [] else c ∷ []
drop_cr (c ∷ d ∷ ds) = c ∷ drop_cr (d ∷ ds)

abbrev pub max_scan_token_size : ℕ
max_scan_token_size = 64 * 1024

abbrev pub max_empty_reads : ℕ
max_empty_reads = 100

abbrev pub too_long : GoError
too_long = new_error "bufio.Scanner: token too long"

abbrev pub no_progress : GoError
no_progress = new_error "multiple Read calls return no data or error"

abbrev pub empty_message : GoError
empty_message = new_error "Empty message received"

-- At the end of the input what is left is a line too, if it is not empty.
abbrev pub last_line : List ℕ → Option (List ℕ) → Result (List ℕ)
last_line got (some l) = ok (drop_cr l)
last_line [] none = fail empty_message
last_line (c ∷ cs) none = ok (drop_cr (c ∷ cs))

-- The answer with all that was read, or the rest of the loop.
abbrev pub after_scan :
    List ℕ → Option GoError → Option (Result (List ℕ)) → Option (Result (List ℕ))
after_scan got (some e) rest =
    if e.is_eof then some (last_line got (before_newline got)) else some (fail e)
after_scan got none rest = elim (before_newline got) [
  | none ↦ rest
  | some l ↦ some (ok (drop_cr l))
]

abbrev pub is_empty : List ℕ → Bool
is_empty [] = true
is_empty (c ∷ cs) = false

-- `got` was read and holds no newline; the last `empties` reads brought nothing. `none`: it waits.
unfoldable pub scan : List ℕ → ℕ → List ReadResult → Option (Result (List ℕ))
scan got empties [] = if leb max_scan_token_size (length got) then some (fail too_long) else none
scan got empties (r ∷ rs) =
    let rest = scan (got ++ r.bytes) (if is_empty r.bytes then empties + 1 else 0) rs in
    if leb max_scan_token_size (length got)
    then some (fail too_long)
    else if is_empty r.bytes && leb max_empty_reads empties
    then after_scan (got ++ r.bytes) r.error (some (fail no_progress))
    else after_scan (got ++ r.bytes) r.error rest

unfoldable pub readline : List ReadResult → Option (Result (List ℕ))
unfolding scan before_newline drop_cr
readline rs = scan [] 0 rs

abbrev sent : List ℕ → ReadResult
sent bs = record { bytes = bs; error = none }

two_reads :
    readline (sent (b'o' ∷ []) ∷ sent (b'k' ∷ b'\r' ∷ b'\n' ∷ b'x' ∷ []) ∷ [])
    ≡ some (ok (b'o' ∷ b'k' ∷ []))
unfolding readline
two_reads = refl

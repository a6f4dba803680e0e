-- ===== src/Io/Chunks.antt =====
-- `Readline` (server/io.go) does not depend on how the line arrives.
use container_cloudlet.Common.{
  ℕ, ◌≤◌, ◌<◌, ◌≡◌, ◌≢◌, refl, sym, ap, ◌∙◌, false, Option, none, some, List, [], ◌∷◌, ◌++◌, length,
  nat_eq, arith, append_assoc, append-nil, Option-cases, inl, inr, map,
}
use mathlib.Core.Option
use container_cloudlet.Go.{ok}
use container_cloudlet.Io.{
  ReadResult, before_newline, drop_cr, scan, readline, max_scan_token_size, after_scan, is_empty,
}

-- Reads that each bring something, with no error.
abbrev pub arrive : List (List ℕ) → List ReadResult
arrive = map (λ bs. record { bytes = bs; error = none })

abbrev pub joined : List (List ℕ) → List ℕ
joined [] = []
joined (c ∷ cs) = c ++ joined cs

abbrev pub NoneEmpty : List (List ℕ) → Type 0
NoneEmpty [] = Unit
NoneEmpty (c ∷ cs) = (c ≢ []) × NoneEmpty cs

before_newline-append_some :
    (xs ys l : List ℕ) → before_newline xs ≡ some l → before_newline (xs ++ ys) ≡ some l
unfolding before_newline
before_newline-append_some [] ys l h = cc
before_newline-append_some (x ∷ xs) ys l h = elim (Option-cases (before_newline xs)) [
  | inl e ↦ ground arith
  | inr (l', e) ↦ ground (arith, before_newline-append_some xs ys l' e)
]

before_newline-longer :
    (xs ys l : List ℕ)
    → before_newline xs ≡ none
    → before_newline (xs ++ ys) ≡ some l
    → length xs ≤ length l
unfolding before_newline
before_newline-longer [] ys l h k = omega arith
before_newline-longer (x ∷ xs) ys l h k = elim (Option-cases (before_newline (xs ++ ys))) [
  | inl e ↦ ground arith
  | inr (l', e) ↦ ground (arith, before_newline-longer xs ys l')
]

is_empty_nil : (c : List ℕ) → c ≢ [] → is_empty c ≡ false
is_empty_nil [] n = absurd (n refl)
is_empty_nil (x ∷ xs) n = refl

scan_step :
    (got c : List ℕ) (rs : List ReadResult)
    → c ≢ []
    → length got < max_scan_token_size
    → scan got 0 ((record { bytes = c; error = none }) ∷ rs)
      ≡ after_scan (got ++ c) none (scan (got ++ c) 0 rs)
unfolding scan
scan_step got c rs n h = rw (is_empty_nil c n) (ground arith)

scan-arrive :
    (cs : List (List ℕ)) (got l : List ℕ) (more : List ReadResult)
    → NoneEmpty cs
    → before_newline got ≡ none
    → before_newline (got ++ joined cs) ≡ some l
    → length l < max_scan_token_size
    → scan got 0 (arrive cs ++ more) ≡ some (ok (drop_cr l))
scan-arrive [] got l more n h k fits =
    let e : before_newline got ≡ some l = ap before_newline (sym (append-nil got)) ∙ k in cc
scan-arrive (c ∷ cs) got l more n h k fits =
    scan_step got c (arrive cs ++ more) n.0
      (omega (arith, before_newline-longer got (c ++ joined cs) l h k))
    ∙ elim (Option-cases (before_newline (got ++ c))) [
      | inl e ↦
          rw (after_scan, e)
            (scan-arrive cs (got ++ c) l more n.1 e (rw (append_assoc got c (joined cs)) k) fits)
      | inr (l', e) ↦
          let first : before_newline ((got ++ c) ++ joined cs) ≡ some l' =
            before_newline-append_some (got ++ c) (joined cs) l' e in
          let same : some l' ≡ some l =
            sym first ∙ ap before_newline (append_assoc got c (joined cs)) ∙ k in
          rw (after_scan, e) (ap (λ (x : Option (List ℕ)). Option.map (λ y. ok (drop_cr y)) x) same)
    ]

-- However a line that fits in the scanner's buffer is cut into reads, and whatever follows it,
-- `Readline` answers the line without its end.
pub readline-arrive :
    (cs : List (List ℕ)) (l : List ℕ) (more : List ReadResult)
    → NoneEmpty cs
    → before_newline (joined cs) ≡ some l
    → length l < max_scan_token_size
    → readline (arrive cs ++ more) ≡ some (ok (drop_cr l))
unfolding readline
readline-arrive cs l more n h fits = scan-arrive cs [] l more n refl h fits

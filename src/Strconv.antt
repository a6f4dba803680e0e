-- ===== src/Strconv.antt =====
-- `strconv.Atoi`, which server/lm.go calls on the contents of a file: an optional sign, then one
-- digit or more, and a value that fits in 64 bits.
use Prim.Native.Char.{code}
use container_cloudlet.Common.{
  ℕ, zero, suc, ◌+◌, ◌-◌, ◌*◌, ◌/◌, ◌%◌, ◌^◌, ◌<◌, String, ◌≡◌, refl, Bool, true, false, ◌&&◌,
  Option, none, some, ltb, leb, if◌then◌else◌, digit, decimal, show_nat, ℤ, pos, negsuc, ◌==◌,
  nat_eq, arith, inl, inr, Bool-cases, ltb→lt, lt→ltb, ap, ◌∙◌, ◌≢◌,
}
use container_cloudlet.Go.{GoError, Result, ok, fail, panic, new_error}

-- The value of a row of digits behind digits of value `a`.
unfoldable pub digits_value : ℕ → String → Option ℕ
digits_value a String.[] = some a
digits_value a (String.◌∷◌ c s) =
    let rest = digits_value (a * 10 + (code c - 48)) s in
    if leb 48 (code c) && leb (code c) 57 then rest else none

abbrev pub invalid_syntax : GoError
invalid_syntax = new_error "strconv.Atoi: invalid syntax"

abbrev pub out_of_range : GoError
out_of_range = new_error "strconv.Atoi: value out of range"

-- Down to -(2 ^ 63), and up to 2 ^ 63 - 1.
abbrev signed : Bool → Option ℕ → Result ℤ
signed neg none = fail invalid_syntax
signed true (some zero) = ok (pos 0)
signed true (some (suc n)) = if ltb n (2 ^ 63) then ok (negsuc n) else fail out_of_range
signed false (some n) = if ltb n (2 ^ 63) then ok (pos n) else fail out_of_range

abbrev unsigned_part : Bool → String → Result ℤ
unsigned_part neg String.[] = fail invalid_syntax
unsigned_part neg (String.◌∷◌ c s) = signed neg (digits_value 0 (String.◌∷◌ c s))

unfoldable pub atoi : String → Result ℤ
atoi String.[] = fail invalid_syntax
atoi (String.◌∷◌ c s) =
    if code c == 45
    then unsigned_part true s
    else if code c == 43
    then unsigned_part false s
    else unsigned_part false (String.◌∷◌ c s)

atoi_examples :
    (atoi "42" ≡ ok (pos 42)) × (atoi "-7" ≡ ok (negsuc 6)) × (atoi "42\n" ≡ fail invalid_syntax)
unfolding atoi digits_value
atoi_examples = (refl, refl, refl)

signed_returns : (neg : Bool) (v : Option ℕ) (m : String) → signed neg v ≢ panic m
signed_returns neg none m h = cc
signed_returns true (some zero) m h = cc
signed_returns true (some (suc n)) m h = ground arith
signed_returns false (some n) m h = ground arith

unsigned_returns : (neg : Bool) (s m : String) → unsigned_part neg s ≢ panic m
unsigned_returns neg String.[] m h = cc
unsigned_returns neg (String.◌∷◌ c s) m h = signed_returns neg _ m h

pub atoi_returns : (s m : String) → atoi s ≢ panic m
unfolding atoi
atoi_returns String.[] m h = cc
atoi_returns (String.◌∷◌ c s) m h = elim (Bool-cases (code c == 45)) [
  | inl e ↦ unsigned_returns true s m (rw e at h)
  | inr e ↦ elim (Bool-cases (code c == 43)) [
    | inl e' ↦ unsigned_returns false s m (rw (e, e') at h)
    | inr e' ↦ unsigned_returns false (String.◌∷◌ c s) m (rw (e, e') at h)
  ]
]

code-digit : (d : ℕ) → d < 10 → code (digit d) ≡ 48 + d
unfolding digit
code-digit zero h = refl
code-digit (suc zero) h = refl
code-digit (suc (suc zero)) h = refl
code-digit (suc (suc (suc zero))) h = refl
code-digit (suc (suc (suc (suc zero)))) h = refl
code-digit (suc (suc (suc (suc (suc zero))))) h = refl
code-digit (suc (suc (suc (suc (suc (suc zero)))))) h = refl
code-digit (suc (suc (suc (suc (suc (suc (suc zero))))))) h = refl
code-digit (suc (suc (suc (suc (suc (suc (suc (suc zero)))))))) h = refl
code-digit (suc (suc (suc (suc (suc (suc (suc (suc (suc zero))))))))) h = refl
code-digit (suc (suc (suc (suc (suc (suc (suc (suc (suc (suc d)))))))))) h = absurd (omega arith)

-- One digit in front.
digits_value-digit :
    (d a v : ℕ) (out : String)
    → d < 10
    → a * 10 + d ≡ v
    → digits_value a (String.◌∷◌ (digit d) out) ≡ digits_value v out
unfolding digits_value
digits_value-digit d a v out h e = ground (arith, code-digit d h)

digits_value-decimal :
    (fuel n : ℕ) (out : String)
    → n < fuel
    → digits_value 0 (decimal fuel n out) ≡ digits_value n out
unfolding decimal
digits_value-decimal zero n out h = absurd (omega arith)
digits_value-decimal (suc fuel) n out h = elim (Bool-cases (ltb n 10)) [
  | inl small ↦ rw small (digits_value-digit n 0 n out (ltb→lt n 10 small) (omega arith))
  | inr large ↦ rw large (
      digits_value-decimal fuel (n / 10) _ (ground arith)
      ∙ digits_value-digit (n % 10) (n / 10) n out (omega arith) (omega arith))
]

-- Some digit stands first.
decimal_head :
    (fuel n : ℕ) (out : String)
    → n < fuel
    → (d : ℕ) × (s : String) × (d < 10) × (decimal fuel n out ≡ String.◌∷◌ (digit d) s)
unfolding decimal
decimal_head zero n out h = absurd (omega arith)
decimal_head (suc fuel) n out h = elim (Bool-cases (ltb n 10)) [
  | inl small ↦ (n, out, ltb→lt n 10 small, rw small)
  | inr large ↦
      let (d, s, lt, e) =
        decimal_head fuel (n / 10) (String.◌∷◌ (digit (n % 10)) out) (ground arith) in
      (d, s, lt, rw large e)
]

atoi-digit :
    (d n : ℕ) (s t : String)
    → d < 10
    → n < 2 ^ 63
    → t ≡ String.◌∷◌ (digit d) s
    → digits_value 0 t ≡ some n
    → atoi t ≡ ok (pos n)
unfolding atoi digits_value
atoi-digit d n s t h fits e v =
    rw e (ground (arith, code-digit d h, ap (digits_value 0) e, lt→ltb n (2 ^ 63) fits))

-- Reading the digits of a number that fits in an `int` gives the number.
pub atoi-show_nat : (n : ℕ) → n < 2 ^ 63 → atoi (show_nat n) ≡ ok (pos n)
unfolding show_nat digits_value
atoi-show_nat n fits =
    let (d, s, lt, e) = decimal_head (suc n) n "" (omega arith) in
    atoi-digit d n s _ lt fits e (digits_value-decimal (suc n) n "" (omega arith))

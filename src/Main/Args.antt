-- ===== src/Main/Args.antt =====
-- `argsToMap` of server/main.go, with `strings.SplitN` at its first "=".
use Prim.Native.Char.{Char, code}
use Prim.Native.String.{◌++◌}
use text.Mathlib.TextLemmas.{nil-append, cons-append}
use container_cloudlet.Common.{
  String, ◌≡◌, ◌≢◌, refl, ap, ◌∙◌, false, Option, none, some, List, [], ◌∷◌, arith, Map, lookup,
  insert, lookup-insert, ◌==◌, nat_eq, string_eq, if◌then◌else◌,
}

-- `strings.SplitN(v, "=", 2)`: one part, or the two beside the first "=".
pub data Parts : Type 0 where
  one : String → Parts
  two : String → String → Parts

abbrev in_front : Char → Parts → Parts
in_front c (one s) = one (String.◌∷◌ c s)
in_front c (two s t) = two (String.◌∷◌ c s) t

unfoldable pub split_eq : String → Parts
split_eq String.[] = one ""
split_eq (String.◌∷◌ c s) =
    let rest = split_eq s in if code c == b'=' then two "" s else in_front c rest

abbrev put_arg : Map String String → Parts → Map String String
put_arg m (one k) = insert k "" m
put_arg m (two k v) = insert k v m

unfoldable pub add_args : Map String String → List String → Map String String
unfolding split_eq
add_args m [] = m
add_args m (v ∷ args) = add_args (put_arg m (split_eq v)) args

unfoldable pub args_to_map : List String → Map String String
unfolding add_args
args_to_map args = add_args [] args

-- A key and a value, as they are written in an argument.
abbrev pub written : String × String → String
written (k, v) = k ++ ("=" ++ v)

abbrev pub all_written : List (String × String) → List String
all_written [] = []
all_written (p ∷ ps) = written p ∷ all_written ps

-- No character is "=".
abbrev pub IsPlain : String → Type 0
IsPlain String.[] = Unit
IsPlain (String.◌∷◌ c s) = (code c ≢ b'=') × IsPlain s

abbrev pub PlainKeys : List (String × String) → Type 0
PlainKeys [] = Unit
PlainKeys ((k, v) ∷ ps) = IsPlain k × PlainKeys ps

-- The value that the last pair with this key gives.
abbrev pub last_given : String → List (String × String) → Option String → Option String
last_given k [] old = old
last_given k ((j, v) ∷ ps) old = last_given k ps (if j == k then some v else old)

split_eq-written : (k v : String) → IsPlain k → split_eq (k ++ ("=" ++ v)) ≡ two k v
unfolding split_eq
split_eq-written String.[] v h = rw (nil-append, cons-append, nil-append, split_eq) refl
split_eq-written (String.◌∷◌ c k) v h =
    let other : (code c == b'=') ≡ false = ground arith in
    rw (cons-append, split_eq, other, split_eq-written k v h.1) refl

add_args-lookup :
    (k : String) (ps : List (String × String)) (m : Map String String)
    → PlainKeys ps
    → lookup k (add_args m (all_written ps)) ≡ last_given k ps (lookup k m)
unfolding add_args
add_args-lookup k [] m h = refl
add_args-lookup k ((j, v) ∷ ps) m h =
    rw (add_args, split_eq-written j v h.0)
      (add_args-lookup k ps (insert j v m) h.1 ∙ ap (last_given k ps) (lookup-insert j k v m))

-- Arguments that are written `key=value`, with no "=" in a key, are read back: the map has the value
-- of the last argument with the key, also one that holds "=", and no other keys.
pub args_to_map-lookup :
    (k : String) (ps : List (String × String))
    → PlainKeys ps
    → lookup k (args_to_map (all_written ps)) ≡ last_given k ps none
unfolding args_to_map lookup
args_to_map-lookup k ps h = add_args-lookup k ps [] h

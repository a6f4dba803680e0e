-- ===== src/Main/Ends.antt =====
-- What the arguments of server/main.go set, and when its command line returns.
use container_cloudlet.Common.{
  ℕ, zero, suc, String, ◌≡◌, ◌≢◌, refl, Bool, true, false, List, [], ◌∷◌, ◌||◌, length, arith,
  if◌then◌else◌, ◌==◌, string_eq, str_iff, ◌⊎◌, inl, inr,
}
use container_cloudlet.Logger.{verbosity_info, verbosity_debug, verbosity_trace, set_verbosity}
use container_cloudlet.Main.{
  Settings, at_start, read_arg, read_args, Command, quit, command, Console, go_on,
  start_command_line,
}

-- Whether an argument is among them.
abbrev pub given : String → List String → Bool
given a [] = false
given a (b ∷ bs) = (b == a) || given a bs

-- The verbosity that the last of the two options for it asks for.
abbrev pub asked : ℕ → List String → ℕ
asked v [] = v
asked v (b ∷ bs) =
    let debug = asked verbosity_debug bs in
    let trace = asked verbosity_trace bs in
    let same = asked v bs in if b == "-v" then debug else if b == "-vv" then trace else same

v_not_i : ◌≢◌ {A = String} "-v" "-i"
v_not_i = λ p. let h : false ≡ true = (str_iff "-v" "-i").1 p in cc

vv_not_i : ◌≢◌ {A = String} "-vv" "-i"
vv_not_i = λ p. let h : false ≡ true = (str_iff "-vv" "-i").1 p in cc

read_args-from :
    (s : Settings) (args : List String)
    → ((read_args s args).interactive ≡ (s.interactive || given "-i" args))
      × ((read_args s args).logger.verbosity ≡ asked s.logger.verbosity args)
unfolding read_args read_arg set_verbosity
read_args-from s [] = ground arith
read_args-from s (a ∷ args) =
    let rest = read_args-from (read_arg s a) args in
    ground (arith, v_not_i, vv_not_i, str_iff a "-v", str_iff a "-vv", str_iff a "-i")

-- The server is interactive exactly if `-i` is among the arguments, and its verbosity is that of the
-- last `-v` or `-vv`.
pub read_args-at_start :
    (args : List String)
    → ((read_args at_start args).interactive ≡ given "-i" args)
      × ((read_args at_start args).logger.verbosity ≡ asked verbosity_info args)
read_args-at_start args = read_args-from at_start args

-- One of the lines makes the loop return.
abbrev pub SomeQuits : List (List String) → Type 0
SomeQuits [] = ⊥
SomeQuits (l ∷ ls) = (command l ≡ quit) ⊎ SomeQuits ls

go_on-returns :
    (c : Command) (rest : Console) → rest.returned ≡ true → (go_on c rest).returned ≡ true
go_on-returns c rest h = ground arith

-- With a line for `/q` or `quit` in the input, the command line returns, after as many rounds as there
-- are lines at the latest.
start_command_line_quits :
    (lines : List (List String))
    → SomeQuits lines
    → (start_command_line (length lines) lines).returned ≡ true
unfolding start_command_line
start_command_line_quits [] h = elim h [ ]
start_command_line_quits (l ∷ ls) (inl h) = rw h refl
start_command_line_quits (l ∷ ls) (inr h) =
    go_on-returns (command l) (start_command_line (length ls) ls) (start_command_line_quits ls h)

abbrev pub NoneQuits : List (List String) → Type 0
NoneQuits [] = Unit {0}
NoneQuits (l ∷ ls) = (command l ≢ quit) × NoneQuits ls

go_on-waits :
    (c : Command) (rest : Console)
    → c ≢ quit
    → rest.returned ≡ false
    → (go_on c rest).returned ≡ false
go_on-waits c rest n h = ground arith

-- Without a line for `/q` or `quit` in the input, the command line has not returned after any number
-- of rounds: at the end of the input it goes round for ever.
pub start_command_line_spins :
    (n : ℕ) (lines : List (List String))
    → NoneQuits lines
    → (start_command_line n lines).returned ≡ false
unfolding start_command_line command
start_command_line_spins zero lines h = refl
start_command_line_spins (suc n) [] h = start_command_line_spins n [] h
start_command_line_spins (suc n) (l ∷ ls) h =
    go_on-waits (command l) (start_command_line n ls) h.0 (start_command_line_spins n ls h.1)

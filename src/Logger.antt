-- ===== src/Logger.antt =====
-- `SLog` of server/logger.go: which calls print, where, and what. The position of the caller that an
-- error or a warning prints is not modelled, nor is the stack trace of `%+v`.
use Prim.Native.String.{◌++◌}
use container_cloudlet.Common.{ℕ, String, Option, none, some, leb, if◌then◌else◌}

pub data Level : Type 0 where
  error warn info debug trace : Level

-- A call of the logger.
pub record Line : Type 0 where
  pub level : Level
  pub text : String

pub data Stream : Type 0 where
  stdout stderr : Stream

-- `VerbosityInfo`, `VerbosityDebug` and `VerbosityTrace`
abbrev pub verbosity_info : ℕ
verbosity_info = 0

abbrev pub verbosity_debug : ℕ
verbosity_debug = 1

abbrev pub verbosity_trace : ℕ
verbosity_trace = 2

-- `Verbosity` only takes these three values.
pub record Slog : Type 0 where
  pub verbosity : ℕ

unfoldable pub set_verbosity : ℕ → Slog → Slog
set_verbosity v p = record p { verbosity = v }

-- `Error`, `Warn`, `Info`, `Debug` and `Trace`: the stream and what is written to it.
unfoldable pub print : Slog → Level → String → Option (Stream × String)
print p error s = some (stderr, "\u{1b}[31m[ERROR]\u{1b}[0m " ++ s ++ "\n")
print p warn s = some (stdout, "\u{1b}[33m[WARN]\u{1b}[0m " ++ s ++ "\n")
print p info s = some (stdout, "\u{1b}[36m[INFO]\u{1b}[0m " ++ s ++ "\n")
print p debug s =
    if leb verbosity_debug p.verbosity
    then some (stdout, "\u{1b}[34m[DEBUG]\u{1b}[0m " ++ s ++ "\n")
    else none
print p trace s =
    if leb verbosity_trace p.verbosity
    then some (stdout, "\u{1b}[34m[TRACE]\u{1b}[0m " ++ s ++ "\n")
    else none

-- ===== src/Examples/Programs.antt =====
-- Runs of server/main.go, server/protocol.go, and of the loop of a dump service.
use container_cloudlet.Common.{
  refl, lookup, string_eq, arith, ◌≡◌, ◌≢◌, ◌⊎◌, String, true, none, List, [], ◌∷◌, pos,
}
use container_cloudlet.Go.Ensures.{Holds}
use container_cloudlet.Main.Args.{all_written, last_given, args_to_map, args_to_map-lookup}
use container_cloudlet.Main.Setup.{MainEnv, set_up}
use container_cloudlet.Main.Starts.{outcome, set_up-Outcome}
use container_cloudlet.Examples.Worlds.{World, host_conf, interfaces}
use container_cloudlet.Main.{command}
use container_cloudlet.ApiServer.Accept
use container_cloudlet.ApiServer.Accept.{started, accepting, returned}
use container_cloudlet.Main.Run
use container_cloudlet.Main.Run.{Program, running, waits, dead}
use container_cloudlet.Main.Stays.{unasked_serves}
use container_cloudlet.Lm.{req_pre_dump, req_dump}
use container_cloudlet.Lm.Dump.{Service}
use container_cloudlet.Lm.Dump.Serve.{Round, byte, nothing, serve}
use container_cloudlet.Lm.Dump.Answers.{expected, serve-expected}
use container_cloudlet.Examples.Worlds.{executor, container}

abbrev arguments : List String
arguments = "-vv" ∷ "-i" ∷ "-v" ∷ []

-- The input ends without `quit`.
abbrev no_quit : List (List String)
no_quit = [] ∷ ("help" ∷ []) ∷ []

abbrev in_accept : Program
in_accept = record running { server = record started { loop = accepting } }

in_accept-Reach : Run.Reach true no_quit in_accept
in_accept-Reach = Run.next Run.here (Run.serves tt (Accept.enters refl refl) refl)

unasked_serves_example :
    (in_accept.main ≡ dead) ⊎ ((in_accept.main ≡ waits) × (in_accept.server.loop ≢ returned))
unfolding command
unasked_serves_example = unasked_serves in_accept-Reach ((λ p. cc), ((λ p. cc), tt))

abbrev loop : Service
loop = record { target = container; this_addr = "192.168.0.1"; bw_limit = pos 100; pid = pos 42 }

-- A pre-dump, the final dump, and the end of the stream.
abbrev exchange : List Round
exchange =
    (record { incoming = byte req_pre_dump; write_error = none })
    ∷ (record { incoming = byte req_dump; write_error = none })
    ∷ (record { incoming = nothing; write_error = none })
    ∷ []

serve-expected_example :
    serve executor loop 1 exchange none
    ≡ expected executor loop 1 (req_pre_dump ∷ req_dump ∷ []) true none
serve-expected_example = serve-expected executor loop exchange 1 none

abbrev main_env : MainEnv World
main_env = record {
  conf = record { read_file = λ path w. ((none, []), w); unmarshal = λ b conf. (none, host_conf) };
  interfaces = λ w. ((none, interfaces), w);
}

set_up-Outcome_example :
    Holds
      (outcome main_env arguments none)
      (set_up main_env arguments (record { world = none; stdout = [] }))
set_up-Outcome_example = set_up-Outcome main_env arguments (record { world = none; stdout = [] })

abbrev pairs : List (String × String)
pairs = ("addr", "a=b") ∷ ("port", "80") ∷ ("addr", "c=d") ∷ []

args_to_map-lookup_example :
    lookup "addr" (args_to_map (all_written pairs)) ≡ last_given "addr" pairs none
args_to_map-lookup_example = args_to_map-lookup "addr" pairs (omega arith)

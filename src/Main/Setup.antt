-- ===== src/Main/Setup.antt =====
-- `main` of server/main.go up to the start of the API server. Files, the network interfaces and YAML are
-- parameters over a world `W`.
use Prim.Native.String.{◌++◌}
use container_cloudlet.Common.{
  String, Option, List, [], ◌∷◌, ◌++◌ as append, if◌then◌else◌, ◌==◌, string_eq,
}
use container_cloudlet.Go.{
  GoError, Result, ok, fail, panic, Try, modify, zoom, of_error, ◌>>=◌, ◌>>◌,
}
use container_cloudlet.HostConf.{ConfEnv, load_host_conf}
use container_cloudlet.IfaceAddr.{Interface, get_interface_addr, print_interface_addrs}
use container_cloudlet.Main.{Settings, at_start, read_args}
use container_cloudlet.ApiCore.{ApiCore, new_api_core}

abbrev pub default_gateway_if : String
default_gateway_if = "docker0"

-- `net.Interfaces`, with what each interface answers for its addresses.
pub record MainEnv (W : Type 0) : Type 0 where
  pub conf : ConfEnv W
  pub interfaces : W → (Option GoError × List Interface) × W

-- The outside, and what was printed.
pub record Boot (W : Type 0) : Type 0 where
  pub world : W
  pub stdout : List String

-- What the program holds when it starts the server.
pub record Ready (W : Type 0) : Type 0 where
  pub settings : Settings
  pub core : ApiCore W

-- `if err != nil { panic(err) }`
abbrev pub panicking : {S A : Type 0} → Result A × S → Result A × S
panicking (ok a, s) = (ok a, s)
panicking (fail e, s) = (panic e.text, s)
panicking (panic m, s) = (panic m, s)

unfoldable pub or_panic : {S A : Type 0} → Try S A → Try S A
or_panic m s = panicking (m s)

-- `gatewayAddr`, which stays empty after an error.
abbrev pub or_empty : Result String → String
or_empty (ok a) = a
or_empty _ = ""

abbrev gateway_line : String → List String
gateway_line addr =
    if addr == ""
    then []
    else ("Gateway address: " ++ addr ++ " (" ++ default_gateway_if ++ ")\n") ∷ []

module _ {W : Type 0} where
  unfoldable pub say : List String → Boot W → Boot W
  say lines s = record s { stdout = append s.stdout lines }

  abbrev pub outside : {A : Type 0} → Try W A → Try (Boot W) A
  outside = zoom (λ s. s.world) (λ s w. record s { world = w })

  -- `GetInterfaceAddr` at this time
  unfoldable pub interface_addr : MainEnv W → String → Try W String
  unfolding get_interface_addr
  interface_addr env name w = let (r, w') = env.interfaces w in (get_interface_addr name r, w')

  -- `if addr, err := GetInterfaceAddr(gatewayIf); err == nil`
  unfoldable pub gateway_addr : MainEnv W → Try W String
  unfolding interface_addr
  gateway_addr env w =
      let (r, w') = interface_addr env default_gateway_if w in (ok (or_empty r), w')

  abbrev printed : Option GoError × List String → Boot W → Result (Unit {0}) × Boot W
  printed (e, lines) s = (of_error tt e, say lines s)

  unfoldable pub print_addrs : MainEnv W → Try (Boot W) (Unit {0})
  unfolding say print_interface_addrs
  print_addrs env s =
      let (r, w) = env.interfaces s.world in
      printed (print_interface_addrs "- " r) (record s { world = w })

  -- `main`, up to `StartAPIServer`
  unfoldable pub set_up : MainEnv W → List String → Try (Boot W) (Ready W)
  unfolding or_panic interface_addr gateway_addr print_addrs load_host_conf
  set_up env args = do
    conf ← or_panic (outside (load_host_conf env.conf))
    addr ← or_panic (outside (interface_addr env conf.host_network_interface))
    modify (
        say
          (("Host network address: " ++ addr ++ " (" ++ conf.host_network_interface ++ ")\n") ∷ []))
    gateway ← outside (gateway_addr env)
    modify (say (gateway_line gateway))
    modify (say ("Interface IP addresses:\n" ∷ []))
    or_panic (print_addrs env)
    λ s. (
      ok (record {
        settings = read_args at_start args;
        core = new_api_core conf addr gateway s.world;
      }),
      s,
    )

-- ===== src/IfaceAddr.antt =====
-- server/ifaceaddr.go: the IPv4 address of a network interface, and the list of all addresses. What
-- `net.Interfaces` and `Addrs` answer is given, and so is what an address says of itself.
pub mod Found
use Prim.Native.String.{◌++◌}
use container_cloudlet.Common.{
  String, Bool, true, false, not, Option, none, some, List, [], ◌∷◌, ◌++◌ as append, if◌then◌else◌,
  ◌==◌, string_eq,
}
use container_cloudlet.Go.{GoError, Result, ok, fail, new_error}

-- `net.IP`: what `To4` yields, as text, `IsLoopback` and the text of the address itself.
pub record Ip : Type 0 where
  pub to4 : Option String
  pub is_loopback : Bool
  pub shown : String

-- `net.Addr`, with an IP that may be nil in the types that have one.
pub data Addr : Type 0 where
  ip_net : Option Ip → Addr
  ip_addr : Option Ip → Addr
  other : Addr

pub record Interface : Type 0 where
  pub name : String
  pub addrs : Option GoError × List Addr

-- The switch over the type
abbrev pub ip_of : Addr → Option Ip
ip_of (ip_net ip) = ip
ip_of (ip_addr ip) = ip
ip_of other = none

abbrev pub usable : Option Ip → Option String
usable none = none
usable (some ip) = if not ip.is_loopback then ip.to4 else none

abbrev pub first_or : Option String → Option String → Option String
first_or none rest = rest
first_or (some a) rest = some a

-- The loop over the addresses
unfoldable pub find_addr : List Addr → Option String
find_addr [] = none
find_addr (a ∷ addrs) = first_or (usable (ip_of a)) (find_addr addrs)

abbrev pub found_or : Option String → Result String → Result String
found_or none rest = rest
found_or (some a) rest = ok a

abbrev pub search_in : Option GoError × List Addr → Result String → Result String
search_in (some e, addrs) rest = fail e
search_in (none, addrs) rest = found_or (find_addr addrs) rest

unfoldable pub search_interfaces : String → List Interface → Result String
unfolding find_addr
search_interfaces name [] = fail (new_error ("No IPv4 addr for iface: " ++ name))
search_interfaces name (i ∷ is) =
    let rest = search_interfaces name is in if i.name == name then search_in i.addrs rest else rest

-- `GetInterfaceAddr`
unfoldable pub get_interface_addr : String → Option GoError × List Interface → Result String
unfolding search_interfaces
get_interface_addr name (some e, is) = fail e
get_interface_addr name (none, is) = search_interfaces name is

-- The loop over the addresses of one interface: a line for each address that is no loopback.
abbrev shown_line : String → String → Option Ip → List String
shown_line prefix name none = []
shown_line prefix name (some ip) =
    if not ip.is_loopback then (prefix ++ name ++ "\t= " ++ ip.shown ++ "\n") ∷ [] else []

unfoldable pub addr_lines : String → String → List Addr → List String
addr_lines prefix name [] = []
addr_lines prefix name (a ∷ addrs) =
    append (shown_line prefix name (ip_of a)) (addr_lines prefix name addrs)

abbrev and_lines : List String → Option GoError × List String → Option GoError × List String
and_lines printed (e, rest) = (e, append printed rest)

abbrev interface_lines :
    String
    → String
    → Option GoError × List Addr
    → Option GoError × List String
    → Option GoError × List String
interface_lines prefix name (some e, addrs) rest = (some e, [])
interface_lines prefix name (none, addrs) rest = and_lines (addr_lines prefix name addrs) rest

unfoldable pub print_interfaces : String → List Interface → Option GoError × List String
unfolding addr_lines
print_interfaces prefix [] = (none, [])
print_interfaces prefix (i ∷ is) =
    interface_lines prefix i.name i.addrs (print_interfaces prefix is)

-- `PrintInterfaceAddrs`: the error, and what was printed until then
unfoldable pub print_interface_addrs :
    String → Option GoError × List Interface → Option GoError × List String
unfolding print_interfaces
print_interface_addrs prefix (some e, is) = (some e, [])
print_interface_addrs prefix (none, is) = print_interfaces prefix is

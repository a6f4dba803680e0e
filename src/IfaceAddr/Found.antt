-- ===== src/IfaceAddr/Found.antt =====
-- Which address `GetInterfaceAddr` of server/ifaceaddr.go answers.
use container_cloudlet.Common.{
  String, ◌≡◌, ◌≢◌, refl, sym, subst, Bool, true, false, Option, none, some, List, [], ◌∷◌, arith,
  ◌⊎◌, inl, inr, ◌==◌, string_eq, str_iff, if◌then◌else◌,
}
use container_cloudlet.Go.{GoError, Result, ok, fail, panic}
use container_cloudlet.IfaceAddr.{
  Ip, Addr, Interface, ip_of, usable, first_or, found_or, find_addr, search_in, search_interfaces,
  get_interface_addr,
}

-- `addr` is the IPv4 text of one of these addresses that is no loopback.
abbrev pub Has : String → List Addr → Type 0
Has addr [] = ⊥
Has addr (a ∷ addrs) =
    ((ip : Ip) × (ip_of a ≡ some ip) × (ip.is_loopback ≡ false) × (ip.to4 ≡ some addr))
    ⊎ Has addr addrs

-- Of one of the interfaces with this name.
abbrev pub HasNamed : String → String → List Interface → Type 0
HasNamed name addr [] = ⊥
HasNamed name addr (i ∷ is) = ((i.name ≡ name) × Has addr i.addrs.1) ⊎ HasNamed name addr is

-- The addresses of one of them cannot be read, for this reason.
abbrev pub Unread : String → GoError → List Interface → Type 0
Unread name e [] = ⊥
Unread name e (i ∷ is) = ((i.name ≡ name) × (i.addrs.0 ≡ some e)) ⊎ Unread name e is

-- An address that one of the interfaces has, or an error: of an interface that cannot be read, or since
-- none of them has such an address.
abbrev Found : String → List Interface → Result String → Type 0
Found name is (ok addr) = HasNamed name addr is
Found name is (fail e) = Unread name e is ⊎ ((addr : String) → ¬ HasNamed name addr is)
Found name is (panic m) = ⊥

abbrev pub Outcome : String → Option GoError × List Interface → Result String → Type 0
Outcome name (some e, is) r = r ≡ fail e
Outcome name (none, is) r = Found name is r

usable-some :
    (o : Option Ip) (addr : String)
    → usable o ≡ some addr
    → (ip : Ip) × (o ≡ some ip) × (ip.is_loopback ≡ false) × (ip.to4 ≡ some addr)
usable-some none addr e = cc
usable-some (some ip) addr e = (ip, refl, ground arith, ground arith)

first_or-some :
    (o r : Option String) (addr : String)
    → first_or o r ≡ some addr
    → (o ≡ some addr) ⊎ (r ≡ some addr)
first_or-some none r addr e = inr e
first_or-some (some a) r addr e = inl e

find_addr-Has : (addrs : List Addr) (addr : String) → find_addr addrs ≡ some addr → Has addr addrs
unfolding find_addr
find_addr-Has [] addr e = cc
find_addr-Has (a ∷ addrs) addr e =
    elim (first_or-some (usable (ip_of a)) (find_addr addrs) addr e) [
      | inl h ↦ inl (usable-some (ip_of a) addr h)
      | inr h ↦ inr (find_addr-Has addrs addr h)
    ]

find_addr_complete : (addrs : List Addr) (addr : String) → Has addr addrs → find_addr addrs ≢ none
unfolding find_addr
find_addr_complete [] addr h = elim h [ ]
find_addr_complete (a ∷ addrs) addr (inl (ip, e, l, f)) = λ n. ground arith
find_addr_complete (a ∷ addrs) addr (inr h) =
    let rest = find_addr_complete addrs addr h in λ n. rest (ground arith)

-- An interface that has nothing to offer is passed over.
passed :
    (name : String) (i : Interface) (is : List Interface) (r : Result String)
    → ((addr : String) → i.name ≡ name → ¬ Has addr i.addrs.1)
    → Found name is r
    → Found name (i ∷ is) r
passed name i is (ok addr) n f = inr f
passed name i is (fail e) n (inl u) = inl (inr u)
passed name i is (fail e) n (inr k) =
    inr (λ addr h. elim h [ inl (e', a) ↦ n addr e' a | inr b ↦ k addr b ])
passed name i is (panic m) n f = absurd f

searched :
    (name : String) (i : Interface) (is : List Interface) (r : Result String)
    → i.name ≡ name
    → (x : Option GoError) → i.addrs.0 ≡ x
    → (o : Option String) → find_addr i.addrs.1 ≡ o
    → Found name is r
    → Found name (i ∷ is) (search_in (x, i.addrs.1) r)
searched name i is r e (some x) a o f h = inl (inl (e, a))
searched name i is r e none a none f h =
    subst (λ q. Found name (i ∷ is) (found_or q r)) (sym f)
      (passed name i is r (λ addr e' k. find_addr_complete i.addrs.1 addr k f) h)
searched name i is r e none a (some addr) f h =
    subst (λ q. Found name (i ∷ is) (found_or q r)) (sym f)
      (inl (e, find_addr-Has i.addrs.1 addr f))

looked_at :
    (name : String) (i : Interface) (is : List Interface) (r : Result String)
    → (b : Bool) → (i.name == name) ≡ b
    → Found name is r
    → Found name (i ∷ is) (if b then search_in i.addrs r else r)
looked_at name i is r true e h =
    searched name i is r ((str_iff i.name name).0 e) i.addrs.0 refl (find_addr i.addrs.1) refl h
looked_at name i is r false e h =
    passed name i is r (λ addr e' k. absurd (ground (arith, str_iff i.name name))) h

search_interfaces-Found :
    (name : String) (is : List Interface) → Found name is (search_interfaces name is)
unfolding search_interfaces
search_interfaces-Found name [] = inr (λ addr h. h)
search_interfaces-Found name (i ∷ is) =
    looked_at name i is (search_interfaces name is) (i.name == name) refl
      (search_interfaces-Found name is)

-- The address that `GetInterfaceAddr` answers is an IPv4 address of an interface of the given name, and
-- is not a loopback address. It fails only with the error of `net.Interfaces`, with the error of an
-- interface of that name whose addresses cannot be read, or where no interface of the name has such an
-- address; and it never panics.
pub get_interface_addr-Outcome :
    (name : String) (x : Option GoError × List Interface)
    → Outcome name x (get_interface_addr name x)
unfolding get_interface_addr
get_interface_addr-Outcome name (some e, is) = refl
get_interface_addr-Outcome name (none, is) = search_interfaces-Found name is

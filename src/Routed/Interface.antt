-- ===== src/Routed/Interface.antt =====
-- netkit-routed/routed/interface.h and if.c: the interfaces, and the searches for one of them.
pub mod Strangers
use netkit.Base.{
  ℕ, Bool, true, false, not, Option, none, some, List, [], ◌∷◌, ◌==◌, ◌&&◌, ◌||◌, leb, suc,
  find_place, if◌then◌else◌,
}
use netkit.Routed.Route.{Sockaddr, same_bytes, Afswitch}

-- `struct interface`, less its name, the trace and the counts; the union of `int_broadaddr` and
-- `int_dstaddr` is `int_peer`, and the bits of `int_flags` that the daemon reads are fields.
pub record Interface : Type 0 where
  pub int_addr : Sockaddr
  pub int_peer : Sockaddr
  pub int_metric : ℕ
  pub is_broadcast : Bool
  pub is_loopback : Bool
  pub is_pointopoint : Bool
  pub is_subnet : Bool
  pub is_passive : Bool
  pub is_interface : Bool
  pub is_remote : Bool
  pub int_net : ℕ
  pub int_netmask : ℕ
  pub int_subnet : ℕ
  pub int_subnetmask : ℕ

unfoldable pub same : Sockaddr → Sockaddr → Bool
unfolding same_bytes
same a b = same_bytes a.sa_data b.sa_data

-- `if_ifwithaddr`; what is found is the interface's place in `ifnet`.
pub if_ifwithaddr : List Interface → Sockaddr → Option ℕ
unfolding same
if_ifwithaddr ifnet addr =
    find_place
      (λ i.
        not i.is_remote
        && (i.int_addr.sa_family == addr.sa_family
            && (same i.int_addr addr || i.is_broadcast && same i.int_peer addr)))
      ifnet

-- `if_ifwithdstaddr`
unfoldable pub if_ifwithdstaddr : List Interface → Sockaddr → Option ℕ
unfolding same
if_ifwithdstaddr ifnet addr = find_place (λ i. i.is_pointopoint && same i.int_peer addr) ifnet

-- `if_ifwithnet`
unfoldable pub if_ifwithnet : (ℕ → Afswitch) → ℕ → List Interface → Sockaddr → Option ℕ
if_ifwithnet afswitch af_max ifnet addr =
    let af = addr.sa_family in
    if leb af_max af
    then none
    else find_place
        (λ i.
          not i.is_remote
          && (af == i.int_addr.sa_family && (afswitch af).af_netmatch addr i.int_addr))
        ifnet

-- The test of `if_iflookup` that ends the loop.
unfoldable pub is_from : Sockaddr → Interface → Bool
unfolding same
is_from addr i =
    same i.int_addr addr
    || (i.is_broadcast && same i.int_peer addr || i.is_pointopoint && same i.int_peer addr)

-- `maybe` behind an interface.
unfoldable pub noted : Bool → ℕ → Option ℕ → Option ℕ
noted on_net n (some m) = some m
noted on_net n none = if on_net then some n else none

-- The loop of `if_iflookup` from the `n`th interface on, with `maybe`.
unfoldable pub iflookup_from :
    (Sockaddr → Bool) → Sockaddr → ℕ → Option ℕ → List Interface → Option ℕ
unfolding is_from noted
iflookup_from netmatch addr n maybe [] = maybe
iflookup_from netmatch addr n maybe (i ∷ is) =
    let on_net = i.int_addr.sa_family == addr.sa_family && netmatch i.int_addr in
    let maybe' = noted on_net n maybe in
    let rest = iflookup_from netmatch addr (suc n) maybe' is in
    if i.int_addr.sa_family == addr.sa_family && is_from addr i then some n else rest

-- `if_iflookup`
unfoldable pub if_iflookup : (ℕ → Afswitch) → ℕ → List Interface → Sockaddr → Option ℕ
unfolding iflookup_from
if_iflookup afswitch af_max ifnet addr =
    let af = addr.sa_family in
    if leb af_max af then none else iflookup_from ((afswitch af).af_netmatch addr) addr 0 none ifnet

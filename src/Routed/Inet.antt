-- ===== src/Routed/Inet.antt =====
-- netkit-routed/routed/inet.c and af.c: the Internet's addresses, whose four bytes stand behind
-- the two of the port in `sa_data`.
pub mod Networks
mod Tests
use netkit.Base.{
  ℕ, zero, suc, ◌+◌, ◌-◌, ◌*◌, ◌/◌, ◌%◌, ◌^◌, Bool, true, false, not, Option, none, some, List, [],
  ◌∷◌, ◌==◌, ◌&&◌, ◌||◌, leb, get_or, set, drop, if◌then◌else◌,
}
use Prim.Native.Nat.{bit_and, bit_or}
use netkit.Routed.Route.{Sockaddr, Route, Afhash, Afswitch, Surroundings}
use netkit.Routed.Interface.{Interface, if_ifwithdstaddr, if_ifwithnet}

-- `ntohl (sin_addr.s_addr)` and `ntohs (sin_port)`
pub address : Sockaddr → ℕ
address a = let b : ℕ → ℕ = λ i. get_or a.sa_data i 0 in ((b 2 * 256 + b 3) * 256 + b 4) * 256 + b 5

pub port : Sockaddr → ℕ
port a = get_or a.sa_data 0 0 * 256 + get_or a.sa_data 1 0

-- IN_CLASSA and IN_CLASSB, and the masks of the classes of netinet/in.h.
pub in_classa : ℕ → Bool
in_classa i = bit_and i 2147483648 == 0

pub in_classb : ℕ → Bool
in_classb i = bit_and i 3221225472 == 2147483648

pub class_net : ℕ → ℕ
unfolding in_classa in_classb
class_net i = if in_classa i then 4278190080 else if in_classb i then 4294901760 else 4294967040

pub class_host : ℕ → ℕ
unfolding in_classa in_classb
class_host i = if in_classa i then 16777215 else if in_classb i then 65535 else 255

-- The first interface that passes a test, where a loop over `ifnet` stops.
pub first_of : (Interface → Bool) → List Interface → Option Interface
first_of p [] = none
first_of p (i ∷ is) = let rest = first_of p is in if p i then some i else rest

-- `inet_makeaddr` with the address in the order of the host. With glibc 2 this one is not
-- compiled, and the C library's is called; for a host of 0, which all callers pass, both give the
-- network's address, unless the first byte of that is 0.
pub inet_makeaddr : List Interface → ℕ → ℕ → ℕ
unfolding class_host first_of
inet_makeaddr ifnet net host =
    let mask : ℕ = elim (first_of (λ i. bit_and i.int_netmask net == i.int_net) ifnet) [
      | some i ↦ 2 ^ 32 - 1 - i.int_subnetmask
      | none ↦ class_host net
    ] in
    bit_or net (bit_and host mask)

-- `inet_netof_subnet` of an address in the order of the host.
pub inet_netof_subnet : List Interface → ℕ → ℕ
unfolding class_net first_of
inet_netof_subnet ifnet i =
    let net = bit_and i (class_net i) in
    elim (first_of (λ ifp. bit_and ifp.int_netmask net == ifp.int_net) ifnet) [
      | some ifp ↦ bit_and i ifp.int_subnetmask
      | none ↦ net
    ]

-- `inet_rtflags`: RTF_HOST and RTF_SUBNET.
pub inet_rtflags : List Interface → Sockaddr → Bool × Bool
unfolding address class_net class_host first_of
inet_rtflags ifnet sa =
    let i = address sa in
    let net = bit_and i (class_net i) in
    let host = bit_and i (class_host i) in
    elim (first_of (λ ifp. net == ifp.int_net) ifnet) [
      | some ifp ↦
          if not (host - bit_and host ifp.int_subnetmask == 0)
          then (true, false)
          else (false, not (ifp.int_subnetmask == ifp.int_netmask))
      | none ↦ (not (host == 0), false)
    ]

-- `inet_sendroute`
pub inet_sendroute : Route → Sockaddr → Bool
unfolding address class_net class_host
inet_sendroute rt sa =
    let r = address rt.dst in
    let d = address sa in
    let no_host = bit_and r (class_host r) == 0 in
    if bit_and r (class_net r) == bit_and d (class_net r)
    then (if no_host then not rt.state.internal else true)
    else if no_host
    then rt.state.internal
    else false

-- The loop of `inet_hash`, with fuel for the bytes of the number.
pub shift_down : ℕ → ℕ → ℕ
shift_down zero n = n
shift_down (suc fuel) n = let rest = shift_down fuel (n / 256) in if n % 256 == 0 then rest else n

-- `inet_hash`
pub inet_hash : List Interface → Sockaddr → Afhash
unfolding address inet_netof_subnet shift_down
inet_hash ifnet sa =
    let n = inet_netof_subnet ifnet (address sa) in
    record { hosthash = address sa % 2 ^ 31; nethash = if n == 0 then 0 else shift_down 4 n }

-- `inet_netmatch`
pub inet_netmatch : List Interface → Sockaddr → Sockaddr → Bool
unfolding address inet_netof_subnet
inet_netmatch ifnet a b = inet_netof_subnet ifnet (address a) == inet_netof_subnet ifnet (address b)

-- What the daemon gets from elsewhere: AF_MAX, IN_EXPERIMENTAL, `rip_port` in the order of the host,
-- the kernel's version and answers, and what a call through a null pointer of `afswitch` comes to.
pub record System : Type 0 where
  pub af_max : ℕ
  pub in_experimental : ℕ → Bool
  pub rip_port : ℕ
  pub is_new_kernel : Bool
  pub unreachable : Route → Bool
  pub nil : Afswitch

pub all_zero : List ℕ → Bool
all_zero [] = true
all_zero (b ∷ bs) = b == 0 && all_zero bs

-- `inet_checkhost`
pub inet_checkhost : System → Sockaddr → Bool
unfolding address port all_zero
inet_checkhost sys sa =
    let i = address sa in
    not (sys.in_experimental i || not (port sa == 0))
    && (not (not (i == 0) && bit_and i 4278190080 == 0) && all_zero (drop 6 sa.sa_data))

-- `inet_canon`: the port is 0.
unfoldable pub inet_canon : Sockaddr → Sockaddr
inet_canon sa = record sa { sa_data = set (set sa.sa_data 0 0) 1 0 }

-- The entry INET of `afswitch`; IPPORT_RESERVED is 1024.
unfoldable pub inet_switch : System → List Interface → Afswitch
unfolding inet_hash inet_netmatch inet_rtflags inet_checkhost inet_sendroute inet_canon port
inet_switch sys ifnet = record {
  af_hash = inet_hash ifnet;
  af_netmatch = inet_netmatch ifnet;
  af_rtflags = inet_rtflags ifnet;
  is_supported = true;
  af_checkhost = inet_checkhost sys;
  af_sendroute = inet_sendroute;
  af_portmatch = λ sa. port sa == sys.rip_port;
  af_portcheck = λ sa. leb (port sa) 1024;
  af_canon = inet_canon;
}

-- `afswitch`; AF_INET is 2, and the other entries are NIL.
unfoldable pub afswitch : System → List Interface → ℕ → Afswitch
unfolding inet_switch
afswitch sys ifnet af =
    if af == 2 then inet_switch sys ifnet else record sys.nil { is_supported = false }

-- What tables.c asks of af.c, inet.c and if.c.
unfoldable pub surroundings : System → List Interface → Surroundings
unfolding afswitch if_ifwithdstaddr if_ifwithnet
surroundings sys ifnet = record {
  afswitch = afswitch sys ifnet;
  af_max = sys.af_max;
  ifwithdstaddr = if_ifwithdstaddr ifnet;
  ifwithnet = if_ifwithnet (afswitch sys ifnet) sys.af_max ifnet;
  is_new_kernel = sys.is_new_kernel;
  unreachable = sys.unreachable;
}

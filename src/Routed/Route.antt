-- ===== src/Routed/Route.antt =====
-- netkit-routed/routed/table.h and af.h: a route, and what the daemon asks of its surroundings.
use netkit.Base.{ℕ, ◌≡◌, refl, Bool, true, false, Option, List, [], ◌∷◌, ◌==◌, ◌&&◌, arith, ap₂}

-- `struct sockaddr`
pub record Sockaddr : Type 0 where
  pub sa_family : ℕ
  pub sa_data : List ℕ

-- `memcmp (a, b, n) == 0`
unfoldable pub same_bytes : List ℕ → List ℕ → Bool
same_bytes [] [] = true
same_bytes [] (y ∷ ys) = false
same_bytes (x ∷ xs) [] = false
same_bytes (x ∷ xs) (y ∷ ys) = x == y && same_bytes xs ys

-- The macro `equal`.
pub equal : Sockaddr → Sockaddr → Bool
unfolding same_bytes
equal a b = a.sa_family == b.sa_family && same_bytes a.sa_data b.sa_data

-- HOPCNT_INFINITY, TIMER_RATE, EXPIRE_TIME and GARBAGE_TIME of protocols/routed.h.
abbrev pub hopcnt_infinity : ℕ
hopcnt_infinity = 16

abbrev pub timer_rate : ℕ
timer_rate = 30

abbrev pub expire_time : ℕ
expire_time = 180

abbrev pub garbage_time : ℕ
garbage_time = 240

-- The bits of `rt_state`.
pub record State : Type 0 where
  pub changed : Bool
  pub external : Bool
  pub internal : Bool
  pub passive : Bool
  pub interface_route : Bool
  pub remote : Bool
  pub subnet : Bool

-- The bits of `rt_flags`, less RTF_UP, which every route has.
pub record Flags : Type 0 where
  pub host : Bool
  pub gateway : Bool

-- `struct rt_entry`; its links are the places in a list. `ifp` is the number of an interface.
pub record Route : Type 0 where
  pub hash : ℕ
  pub dst : Sockaddr
  pub router : Sockaddr
  pub flags : Flags
  pub state : State
  pub rt_timer : ℕ
  pub metric : ℕ
  pub ifp : Option ℕ

-- `struct netinfo`, in the order of the host.
pub record Netinfo : Type 0 where
  pub rip_dst : Sockaddr
  pub rip_metric : ℕ

-- `struct afhash`
pub record Afhash : Type 0 where
  pub hosthash : ℕ
  pub nethash : ℕ

-- `struct afswitch`, less the output and the format. `is_supported` says that `af_hash` is not null;
-- `af_rtflags` says RTF_HOST and RTF_SUBNET, `af_canon` gives the address that it leaves.
pub record Afswitch : Type 0 where
  pub af_hash : Sockaddr → Afhash
  pub af_netmatch : Sockaddr → Sockaddr → Bool
  pub af_rtflags : Sockaddr → Bool × Bool
  pub is_supported : Bool
  pub af_checkhost : Sockaddr → Bool
  pub af_sendroute : Route → Sockaddr → Bool
  pub af_portmatch : Sockaddr → Bool
  pub af_portcheck : Sockaddr → Bool
  pub af_canon : Sockaddr → Sockaddr

-- `afswitch`, `af_max`, the functions of if.c, whether `kernel_version` is that of Linux 1.3.12 or
-- later, and what the ioctl of a route that `rtadd` adds comes to: ENETUNREACH or not.
pub record Surroundings : Type 0 where
  pub afswitch : ℕ → Afswitch
  pub af_max : ℕ
  pub ifwithdstaddr : Sockaddr → Option ℕ
  pub ifwithnet : Sockaddr → Option ℕ
  pub is_new_kernel : Bool
  pub unreachable : Route → Bool

same_bytes_lem : (xs ys : List ℕ) → same_bytes xs ys ≡ true → xs ≡ ys
unfolding same_bytes
same_bytes_lem [] [] h = refl
same_bytes_lem [] (y ∷ ys) h = cc
same_bytes_lem (x ∷ xs) [] h = cc
same_bytes_lem (x ∷ xs) (y ∷ ys) h =
    let e = same_bytes_lem xs ys (ground arith) in let g : x ≡ y = ground arith in cc (e, g)

-- Addresses that `equal` does not tell apart are one.
pub equal_lem : (a b : Sockaddr) → equal a b ≡ true → a ≡ b
unfolding equal
equal_lem a b h =
    let e : a.sa_family ≡ b.sa_family = ground arith in
    let g = same_bytes_lem a.sa_data b.sa_data (ground arith) in
    ap₂ (λ f d. record { sa_family = f; sa_data = d }) e g

same_bytes_refl : (xs : List ℕ) → same_bytes xs xs ≡ true
unfolding same_bytes
same_bytes_refl [] = refl
same_bytes_refl (x ∷ xs) = ground (arith, same_bytes_refl xs)

pub equal_refl : (a : Sockaddr) → equal a a ≡ true
unfolding equal
equal_refl a = ground (arith, same_bytes_refl a.sa_data)

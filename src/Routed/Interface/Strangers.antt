-- ===== src/Routed/Interface/Strangers.antt =====
-- The searches for an interface agree on a host that none of them is for.
use netkit.Base.{
  ℕ, suc, ◌<◌, ◌≡◌, Bool, false, Option, none, List, [], ◌∷◌, arith, All, leb, Bool-cases, inl, inr,
  ◌==◌, ◌&&◌, ◌||◌, not, All-find_place,
}
use netkit.Routed.Route.{Sockaddr, Afswitch}
use netkit.Routed.Interface.{
  Interface, is_from, iflookup_from, if_iflookup, if_ifwithaddr, if_ifwithdstaddr, same, noted,
}

-- A stranger to one interface.
abbrev pub IsStranger : Sockaddr → Interface → Type 0
IsStranger a i = (i.int_addr.sa_family == a.sa_family && is_from a i) ≡ false

module _ (netmatch : Sockaddr → Bool) (a : Sockaddr) where
  -- Where the loop of `if_iflookup` ends with nothing, the host is a stranger to every interface.
  iflookup_from-IsStranger :
      (n : ℕ) (maybe : Option ℕ) (is : List Interface)
      → iflookup_from netmatch a n maybe is ≡ none
      → All (IsStranger a) is
  unfolding iflookup_from noted
  iflookup_from-IsStranger n maybe [] h = tt
  iflookup_from-IsStranger n maybe (i ∷ is) h =
      elim (Bool-cases (i.int_addr.sa_family == a.sa_family && is_from a i)) [
        | inl y ↦ absurd (ground (arith, y, h))
        | inr f ↦ (
          f,
          iflookup_from-IsStranger (suc n)
              (noted (i.int_addr.sa_family == a.sa_family && netmatch i.int_addr) n maybe) is
              (ground (arith, f, h)),
        )
      ]

module _ (a : Sockaddr) where
  pub if_iflookup-IsStranger :
      (afswitch : ℕ → Afswitch) (af_max : ℕ) (ifnet : List Interface)
      → a.sa_family < af_max
      → if_iflookup afswitch af_max ifnet a ≡ none
      → All (IsStranger a) ifnet
  unfolding if_iflookup
  if_iflookup-IsStranger afswitch af_max ifnet known h =
      let k : leb af_max a.sa_family ≡ false = ground arith in
      iflookup_from-IsStranger ((afswitch a.sa_family).af_netmatch a) a 0 none ifnet
        (ground (arith, k, h))

  -- The test of `if_ifwithaddr`.
  IsStranger-addr :
      (is : List Interface)
      → All (IsStranger a) is
      → All
          (λ i.
            (not i.is_remote
              && (i.int_addr.sa_family == a.sa_family
                  && (same i.int_addr a || i.is_broadcast && same i.int_peer a)))
            ≡ false)
          is
  unfolding is_from
  IsStranger-addr [] h = tt
  IsStranger-addr (i ∷ is) (h, hs) = (ground (arith, h), IsStranger-addr is hs)

  pub if_ifwithaddr-none : (is : List Interface) → All (IsStranger a) is → if_ifwithaddr is a ≡ none
  unfolding if_ifwithaddr
  if_ifwithaddr-none is h = All-find_place _ is (IsStranger-addr is h)

  -- The test of `if_ifwithdstaddr`, which does not look at the family.
  IsStranger-dstaddr :
      (is : List Interface)
      → All (λ i. i.int_addr.sa_family ≡ a.sa_family) is
      → All (IsStranger a) is
      → All (λ i. (i.is_pointopoint && same i.int_peer a) ≡ false) is
  unfolding is_from
  IsStranger-dstaddr [] f h = tt
  IsStranger-dstaddr (i ∷ is) (f, fs) (h, hs) = (ground (arith, f, h), IsStranger-dstaddr is fs hs)

  pub if_ifwithdstaddr-none :
      (is : List Interface)
      → All (λ i. i.int_addr.sa_family ≡ a.sa_family) is
      → All (IsStranger a) is
      → if_ifwithdstaddr is a ≡ none
  unfolding if_ifwithdstaddr
  if_ifwithdstaddr-none is f h = All-find_place _ is (IsStranger-dstaddr is f h)

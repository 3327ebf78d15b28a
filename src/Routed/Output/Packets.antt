-- ===== src/Routed/Output/Packets.antt =====
-- What the messages of `supply` say together, and how long they are.
use netkit.Base.{
  if◌then◌else◌, ℕ, suc, ◌≤◌, ◌≡◌, ◌∙◌, sym, refl, ap, Bool, true, false, List, [], ◌∷◌, ◌++◌,
  append-nil, arith, All, Bool-cases, inl, inr, length-rev_onto, rev_onto, rev_onto-append,
}
use netkit.Routed.Route.{Route, Netinfo, Surroundings}
use netkit.Routed.Table.{Routes}
use netkit.Routed.Output.{
  Target, Packet, walk, is_told, is_full, is_empty, netinfo_of, only_self, supply_from, supply,
  packets, maxpacketsize, size_of,
}

-- The routes that are told.
abbrev pub told : Surroundings → Target → List (Bool × Route) → List Netinfo
told env t [] = []
told env t ((doinghost, rt) ∷ rts) =
    if is_told env t doinghost rt then netinfo_of rt ∷ told env t rts else told env t rts

abbrev pub all_nets : List (List Netinfo) → List Netinfo
all_nets [] = []
all_nets (nets ∷ rest) = nets ++ all_nets rest

abbrev pub nets_of : List Packet → List Netinfo
nets_of [] = []
nets_of (p ∷ ps) = p.nets ++ nets_of ps

-- The message is no longer than MAXPACKETSIZE.
abbrev pub IsShort : Packet → Type 0
IsShort p = size_of p.nets ≤ maxpacketsize

module _ (env : Surroundings) (t : Target) where
  supply_from-last :
      (npackets : ℕ) (nets : List Netinfo)
      → all_nets (supply_from env t npackets nets []) ≡ rev_onto nets []
  unfolding supply_from is_empty rev_onto
  supply_from-last npackets [] = ground arith
  supply_from-last npackets (n ∷ nets) = append-nil (rev_onto nets (n ∷ []))

  module _ (npackets : ℕ) (nets : List Netinfo) (doinghost : Bool) (rt : Route)
      (rts : List (Bool × Route)) where
    supply_from-skip :
        is_told env t doinghost rt ≡ false
        → supply_from env t npackets nets ((doinghost, rt) ∷ rts)
          ≡ supply_from env t npackets nets rts
    unfolding supply_from
    supply_from-skip h = ground (arith, h)

    supply_from-add :
        is_told env t doinghost rt ≡ true
        → is_full nets ≡ false
        → supply_from env t npackets nets ((doinghost, rt) ∷ rts)
          ≡ supply_from env t npackets (netinfo_of rt ∷ nets) rts
    unfolding supply_from
    supply_from-add h f = ground (arith, h, f)

    supply_from-flush :
        is_told env t doinghost rt ≡ true
        → is_full nets ≡ true
        → supply_from env t npackets nets ((doinghost, rt) ∷ rts)
          ≡ rev_onto nets []
            ∷ (if only_self t
                then []
                else supply_from env t (suc npackets) (netinfo_of rt ∷ []) rts)
    unfolding supply_from
    supply_from-flush h f = ground (arith, h, f)

    told-skip :
        is_told env t doinghost rt ≡ false → told env t ((doinghost, rt) ∷ rts) ≡ told env t rts
    told-skip h = ground (arith, h)

    told-add :
        is_told env t doinghost rt ≡ true
        → told env t ((doinghost, rt) ∷ rts) ≡ netinfo_of rt ∷ told env t rts
    told-add h = ground (arith, h)

  -- The messages together are the routes that are told.
  supply_from-told :
      only_self t ≡ false
      → (npackets : ℕ) (nets : List Netinfo) (rts : List (Bool × Route))
      → all_nets (supply_from env t npackets nets rts) ≡ rev_onto nets [] ++ told env t rts
  unfolding rev_onto
  supply_from-told o npackets nets [] =
      supply_from-last npackets nets ∙ sym (append-nil (rev_onto nets []))
  supply_from-told o npackets nets ((doinghost, rt) ∷ rts) =
      elim (Bool-cases (is_told env t doinghost rt)) [
        | inr n ↦
            rw
              (
                supply_from-skip npackets nets doinghost rt rts n,
                told-skip npackets nets doinghost rt rts n,
              )
              (supply_from-told o npackets nets rts)
        | inl y ↦ elim (Bool-cases (is_full nets)) [
          | inl f ↦
              rw
                (
                  supply_from-flush npackets nets doinghost rt rts y f,
                  told-add npackets nets doinghost rt rts y,
                  o,
                )
                (ap (λ ns. rev_onto nets [] ++ ns)
                  (supply_from-told o (suc npackets) (netinfo_of rt ∷ []) rts))
          | inr f ↦
              rw
                (
                  supply_from-add npackets nets doinghost rt rts y f,
                  told-add npackets nets doinghost rt rts y,
                )
                (supply_from-told o npackets (netinfo_of rt ∷ nets) rts
                  ∙ (sym (rev_onto-append nets (netinfo_of rt ∷ []) (told env t rts))
                      ∙ rev_onto-append nets [] (netinfo_of rt ∷ told env t rts)))
        ]
      ]

  abbrev IsSmall : List Netinfo → Type 0
  IsSmall nets = size_of nets ≤ maxpacketsize

  reversed-IsSmall : (nets : List Netinfo) → IsSmall nets → IsSmall (rev_onto nets [])
  reversed-IsSmall nets h = omega (arith, h, length-rev_onto nets [])

  last-IsSmall :
      (npackets : ℕ) (nets : List Netinfo)
      → IsSmall nets
      → All IsSmall (supply_from env t npackets nets [])
  unfolding supply_from
  last-IsSmall npackets nets h = let small = reversed-IsSmall nets h in ground (arith, small)

  if-All :
      (b : Bool) (ns : List (List Netinfo)) → All IsSmall ns → All IsSmall (if b then [] else ns)
  if-All true ns h = tt
  if-All false ns h = h

  is_full-IsSmall : (nets : List Netinfo) (n : Netinfo) → is_full nets ≡ false → IsSmall (n ∷ nets)
  unfolding is_full
  is_full-IsSmall nets n f = ground (arith, f)

  -- Each of the messages is short enough.
  supply_from-IsSmall :
      (npackets : ℕ) (nets : List Netinfo) (rts : List (Bool × Route))
      → IsSmall nets
      → All IsSmall (supply_from env t npackets nets rts)
  supply_from-IsSmall npackets nets [] h = last-IsSmall npackets nets h
  supply_from-IsSmall npackets nets ((doinghost, rt) ∷ rts) h =
      elim (Bool-cases (is_told env t doinghost rt)) [
        | inr n ↦
            rw (supply_from-skip npackets nets doinghost rt rts n)
              (supply_from-IsSmall npackets nets rts h)
        | inl y ↦ elim (Bool-cases (is_full nets)) [
          | inl f ↦ rw (supply_from-flush npackets nets doinghost rt rts y f) (
            reversed-IsSmall nets h,
            if-All (only_self t) (supply_from env t (suc npackets) (netinfo_of rt ∷ []) rts)
                (supply_from-IsSmall (suc npackets) (netinfo_of rt ∷ []) rts (omega arith)),
          )
          | inr f ↦ rw (supply_from-add npackets nets doinghost rt rts y f) (
              supply_from-IsSmall npackets (netinfo_of rt ∷ nets) rts
                (is_full-IsSmall nets (netinfo_of rt) f))
        ]
      ]

  packets-nets : (ns : List (List Netinfo)) → nets_of (packets t ns) ≡ all_nets ns
  unfolding packets
  packets-nets [] = refl
  packets-nets (n ∷ ns) = ap (λ x. n ++ x) (packets-nets ns)

  packets-IsShort : (ns : List (List Netinfo)) → All IsSmall ns → All IsShort (packets t ns)
  unfolding packets
  packets-IsShort [] h = tt
  packets-IsShort (n ∷ ns) (h, hs) = (h, packets-IsShort ns hs)

  -- The messages of `supply`, over an interface that leads to somebody, are no longer than
  -- MAXPACKETSIZE, and together they are the routes that are told, in the order of the walk.
  pub supply-told :
      only_self t ≡ false
      → (r : Routes)
      → (nets_of (supply env t r) ≡ told env t (walk r)) × All IsShort (supply env t r)
  unfolding supply rev_onto
  supply-told o r = (
    packets-nets (supply_from env t 0 [] (walk r)) ∙ supply_from-told o 0 [] (walk r),
    packets-IsShort (supply_from env t 0 [] (walk r))
        (supply_from-IsSmall 0 [] (walk r) (omega arith)),
  )

-- ===== src/Routed/Table.antt =====
-- netkit-routed/routed/tables.c: the two hash tables of routes, and the kernel's.
pub mod Hash
pub mod Insert
pub mod Lookup
pub mod Find
use netkit.Base.{
  ℕ, zero, suc, ◌+◌, ◌%◌, Bool, true, false, not, Option, none, some, List, [], ◌∷◌, ◌++◌, ◌==◌,
  ◌&&◌, ◌||◌, leb, ltb, get_or, get_elem?, find_place, modify_at, remove_at, replicate,
  if◌then◌else◌,
}
use netkit.Routed.Route.{
  Sockaddr, equal, hopcnt_infinity, State, Flags, Route, Afhash, Afswitch, Surroundings,
}

-- The calls of `rtioctl`.
pub data KernelCall : Type 0 where
  add_route delete_route : Route → KernelCall

abbrev pub routehashsiz : ℕ
routehashsiz = 32

-- `hosthash`, `nethash`, and the calls made so far, the last one first.
pub record Routes : Type 0 where
  pub hosthash : List (List Route)
  pub nethash : List (List Route)
  pub calls : List KernelCall

-- Where a route is: in `hosthash` or not, the bucket, the place in it.
pub record Place : Type 0 where
  pub is_host : Bool
  pub bucket : ℕ
  pub index : ℕ

-- `rtinit`
unfoldable pub rtinit : Routes
rtinit = record {
  hosthash = replicate routehashsiz [];
  nethash = replicate routehashsiz [];
  calls = [];
}

-- The walk of a bucket, where `hash & ROUTEHASHMASK` is a remainder.
pub search_bucket : (Route → Bool) → ℕ → List (List Route) → Option ℕ
search_bucket p hash base =
    find_place (λ rt. rt.hash == hash && p rt) (get_or base (hash % routehashsiz) [])

-- Both walks of `rtlookup` and `rtfind`, where `net` is the second one's test.
pub search_both : (Route → Bool) → (Route → Bool) → Afhash → Routes → Option Place
unfolding search_bucket
search_both host net h r = elim (search_bucket host h.hosthash r.hosthash) [
  | some i ↦ some (record { is_host = true; bucket = h.hosthash % routehashsiz; index = i })
  | none ↦ elim (search_bucket net h.nethash r.nethash) [
    | some i ↦ some (record { is_host = false; bucket = h.nethash % routehashsiz; index = i })
    | none ↦ none
  ]
]

-- `rtlookup`
pub rtlookup : Surroundings → Sockaddr → Routes → Option Place
unfolding search_both
rtlookup env dst r =
    if leb env.af_max dst.sa_family
    then none
    else search_both (λ rt. equal rt.dst dst) (λ rt. equal rt.dst dst)
        ((env.afswitch dst.sa_family).af_hash dst) r

-- `rtfind`
pub rtfind : Surroundings → Sockaddr → Routes → Option Place
unfolding search_both
rtfind env dst r =
    let af = dst.sa_family in
    if leb env.af_max af
    then none
    else search_both (λ rt. equal rt.dst dst)
        (λ rt. rt.dst.sa_family == af && (env.afswitch af).af_netmatch rt.dst dst)
        ((env.afswitch af).af_hash dst) r

-- What is at a place.
pub route_at : Routes → Place → Option Route
route_at r p = get_elem? (get_or (if p.is_host then r.hosthash else r.nethash) p.bucket []) p.index

-- The buckets of one table change.
unfoldable pub with_buckets : Bool → (List (List Route) → List (List Route)) → Routes → Routes
with_buckets is_host f r =
    if is_host then record r { hosthash = f r.hosthash } else record r { nethash = f r.nethash }

-- `if_ifwithdstaddr` of an address, or else `if_ifwithnet` of another.
pub interface_of : Surroundings → Sockaddr → Sockaddr → Option ℕ
interface_of env a b = elim (env.ifwithdstaddr a) [ some i ↦ some i | none ↦ env.ifwithnet b ]

-- The route that `rtadd` builds.
unfoldable pub new_route : Surroundings → Sockaddr → Sockaddr → ℕ → State → Route
unfolding interface_of
new_route env dst gate metric state =
    let afs = env.afswitch dst.sa_family in
    let (is_host, is_subnet) = afs.af_rtflags dst in
    let h = afs.af_hash dst in
    record {
      hash = if is_host then h.hosthash else h.nethash;
      dst = dst;
      router = gate;
      flags = record { host = is_host; gateway = not state.interface_route };
      state = record state { changed = true; subnet = is_subnet || state.subnet };
      rt_timer = 0;
      metric = metric;
      ifp = interface_of env dst gate;
    }

-- `insque` at the head of the bucket of the route's hash, in the table that its flags name.
unfoldable pub insque : Route → Routes → Routes
unfolding with_buckets
insque rt r = with_buckets rt.flags.host (modify_at (rt.hash % routehashsiz) (λ b. rt ∷ b)) r

-- `rtadd`
pub rtadd : Surroundings → Sockaddr → Sockaddr → ℕ → State → Routes → Routes
unfolding new_route insque
rtadd env dst gate metric state r =
    let rt = new_route env dst gate metric state in
    let kept = insque rt r in
    if leb env.af_max dst.sa_family
    then r
    else if state.internal || state.external
    then kept
    else if env.unreachable rt
    then record r { calls = add_route rt ∷ r.calls }
    else record kept { calls = add_route rt ∷ r.calls }

-- `rtchange`: the route, and the calls made, the last one first.
unfoldable pub rtchange : Surroundings → Route → Sockaddr → ℕ → Route × List KernelCall
unfolding interface_of
rtchange env rt gate metric =
    let newgateway = not (equal rt.router gate) in
    let add =
      not rt.state.internal
      && (newgateway || not (metric == hopcnt_infinity) && rt.metric == hopcnt_infinity) in
    let delete =
      not rt.state.internal
      && (if newgateway then not (rt.metric == hopcnt_infinity) else metric == hopcnt_infinity)
      && not (add && (if env.is_new_kernel then rt.metric == metric else true)) in
    let rt1 =
      if rt.state.interface_route && delete
      then record rt {
        state = record rt.state { interface_route = false };
        flags = record rt.flags { gateway = true };
      }
      else rt in
    let rt2 = if add then record rt1 { router = gate; ifp = interface_of env gate gate } else rt1 in
    let rt3 = record rt2 { metric = metric; state = record rt2.state { changed = true } } in
    (rt3, (if delete then delete_route rt ∷ [] else []) ++ (if add then add_route rt3 ∷ [] else []))

-- The route at a place changes, and calls are made.
unfoldable pub change_at : Place → (Route → Route × List KernelCall) → Routes → Routes
unfolding with_buckets route_at
change_at p f r =
    let r' = with_buckets p.is_host (modify_at p.bucket (modify_at p.index (λ rt. (f rt).0))) r in
    elim (route_at r p) [ none ↦ r | some rt ↦ record r' { calls = (f rt).1 ++ r.calls } ]

-- The calls of `rtdelete`.
pub rtdelete_calls : Route → List KernelCall
rtdelete_calls rt =
    if ltb rt.metric hopcnt_infinity && not (rt.state.internal || rt.state.external)
    then delete_route rt ∷ []
    else []

-- `rtdelete` of the route at a place.
pub rtdelete : Place → Routes → Routes
unfolding rtdelete_calls with_buckets route_at
rtdelete p r =
    let r' = with_buckets p.is_host (modify_at p.bucket (remove_at p.index)) r in
    elim (route_at r p) [ none ↦ r | some rt ↦ record r' { calls = rtdelete_calls rt ++ r.calls } ]

-- The body of the loop of `rtdeleteall`.
deleted : Route → List KernelCall
deleted rt =
    if rt.state.interface_route || not (ltb rt.metric hopcnt_infinity)
    then []
    else if rt.state.internal || rt.state.external
    then []
    else delete_route rt ∷ []

deleted_bucket : List Route → List KernelCall
unfolding deleted
deleted_bucket [] = []
deleted_bucket (rt ∷ rts) = deleted_bucket rts ++ deleted rt

deleted_table : List (List Route) → List KernelCall
unfolding deleted_bucket
deleted_table [] = []
deleted_table (b ∷ bs) = deleted_table bs ++ deleted_bucket b

-- `rtdeleteall`, up to its `exit`: only the kernel's routes are deleted.
pub rtdeleteall : Routes → Routes
unfolding deleted_table
rtdeleteall r = record r {
  calls = deleted_table r.nethash ++ (deleted_table r.hosthash ++ r.calls);
}

-- `inet_default`; AF_INET is 2.
abbrev pub inet_default : Sockaddr
inet_default = record { sa_family = 2; sa_data = replicate 14 0 }

-- `rtdefault`
pub rtdefault : Surroundings → Routes → Routes
unfolding rtadd
rtdefault env r =
    rtadd env inet_default inet_default 1
      (record {
        changed = true;
        external = false;
        internal = true;
        passive = true;
        interface_route = false;
        remote = false;
        subnet = false;
      })
      r

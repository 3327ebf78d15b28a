-- ===== src/Routed/Inet/Tests.antt =====
-- Runs of the daemon on a host with one interface.
use netkit.Base.{ℕ, ◌≡◌, refl, inr, true, false, none, some, List, [], ◌∷◌, arith, replicate, All}
use netkit.Routed.Route.{Sockaddr, Afswitch, Netinfo, State}
use netkit.Routed.Interface.{Interface, if_iflookup, iflookup_from, is_from, noted, same}
use netkit.Routed.Inet.{
  System, surroundings, afswitch, inet_switch, inet_netmatch, inet_netof_subnet, inet_rtflags,
  address, class_net, class_host, in_classa, in_classb, first_of, inet_canon,
}
use netkit.Routed.Inet.Networks.{rtfind-rtadd}
use netkit.Routed.Table.{Routes, Place, rtinit, rtadd, rtfind}
use netkit.Routed.Table.Insert.{WellPlaced}
use netkit.Routed.Output.{Target, supply, walk, only_self}
use netkit.Routed.Output.Packets.{nets_of, told, IsShort, supply-told}
use netkit.Routed.Update.{Updates, Event, alarm, time_out, changes, run}
use netkit.Routed.Update.Spaced.{Spaced, run-Spaced}
use netkit.Routed.Message.{Config, Daemon, env_of, rip_input, response}
use netkit.Routed.Message.Stranger.{untimed_routes, rip_input-stranger}

abbrev sockaddr : ℕ → ℕ → ℕ → ℕ → Sockaddr
sockaddr a b c d = record { sa_family = 2; sa_data = 0 ∷ 0 ∷ a ∷ b ∷ c ∷ d ∷ replicate 8 0 }

abbrev nil : Afswitch
nil = record {
  af_hash = λ a. record { hosthash = 0; nethash = 0 };
  af_netmatch = λ a b. false;
  af_rtflags = λ a. (false, false);
  is_supported = false;
  af_checkhost = λ a. false;
  af_sendroute = λ rt a. false;
  af_portmatch = λ a. false;
  af_portcheck = λ a. false;
  af_canon = λ a. a;
}

abbrev sys : System
sys = record {
  af_max = 10;
  in_experimental = λ i. false;
  rip_port = 0;
  is_new_kernel = true;
  unreachable = λ rt. false;
  nil = nil;
}

-- 192.168.1.1 on a network of class C.
abbrev eth : Interface
eth = record {
  int_addr = sockaddr 192 168 1 1;
  int_peer = sockaddr 192 168 1 255;
  int_metric = 1;
  is_broadcast = true;
  is_loopback = false;
  is_pointopoint = false;
  is_subnet = false;
  is_passive = false;
  is_interface = true;
  is_remote = false;
  int_net = 3232235776;
  int_netmask = 4294967040;
  int_subnet = 3232235776;
  int_subnetmask = 4294967040;
}

abbrev learned : State
learned = record {
  changed = true;
  external = false;
  internal = false;
  passive = false;
  interface_route = false;
  remote = false;
  subnet = false;
}

rtinit-WellPlaced : WellPlaced (surroundings sys (eth ∷ [])) rtinit
unfolding rtinit
rtinit-WellPlaced = ground arith

is_network : (inet_rtflags (eth ∷ []) (sockaddr 10 0 0 0)).0 ≡ false
unfolding inet_rtflags address class_net class_host in_classa in_classb first_of
is_network = refl

on_network : inet_netmatch (eth ∷ []) (sockaddr 10 0 0 0) (sockaddr 10 1 2 3) ≡ true
unfolding inet_netmatch inet_netof_subnet address class_net in_classa in_classb first_of
on_network = refl

rtfind-rtadd_example :
    (p : Place) × (rtfind (surroundings sys (eth ∷ [])) (sockaddr 10 1 2 3) (
        rtadd
          (surroundings sys (eth ∷ []))
          (sockaddr 10 0 0 0)
          (sockaddr 192 168 1 2)
          2
          learned
          rtinit)
      ≡ some p)
unfolding rtinit surroundings
rtfind-rtadd_example =
    rtfind-rtadd sys (eth ∷ []) (sockaddr 10 0 0 0) (sockaddr 192 168 1 2) 2 learned rtinit
      rtinit-WellPlaced (refl, refl) (omega arith) refl is_network (inr refl) (sockaddr 10 1 2 3)
      refl on_network

abbrev two_routes : Routes
two_routes =
    rtadd (surroundings sys (eth ∷ [])) (sockaddr 10 0 0 0) (sockaddr 192 168 1 2) 2 learned rtinit

abbrev to_eth : Target
to_eth = record {
  dst = sockaddr 192 168 1 255;
  flags = true;
  ifp = some (0, eth);
  only_changed = false;
}

to_eth-only_self : only_self to_eth ≡ false
unfolding only_self
to_eth-only_self = refl

supply-told_example :
    (nets_of (supply (surroundings sys (eth ∷ [])) to_eth two_routes)
      ≡ told (surroundings sys (eth ∷ [])) to_eth (walk two_routes))
    × All IsShort (supply (surroundings sys (eth ∷ [])) to_eth two_routes)
supply-told_example = supply-told (surroundings sys (eth ∷ [])) to_eth to_eth-only_self two_routes

abbrev start : Updates
start = record {
  lastbcast = 0;
  lastfullupdate = 0;
  nextbcast = record { tv_sec = 0; tv_usec = 0 };
  needupdate = 0;
}

abbrev events : List Event
events =
    alarm true (record { tv_sec = 30; tv_usec = 5 })
    ∷ changes 1 (record { tv_sec = 31; tv_usec = 0 }) 7
    ∷ changes 2 (record { tv_sec = 36; tv_usec = 0 }) 7
    ∷ time_out (record { tv_sec = 37; tv_usec = 0 })
    ∷ []

run-Spaced_example : Spaced (run true events (start, [])).1
run-Spaced_example = run-Spaced true events start

abbrev config : Config
config = record { sys = sys; ifnet = eth ∷ []; loopaddr = none; supplier = true }

abbrev nets : List Netinfo
nets = record { rip_dst = sockaddr 10 0 0 0; rip_metric = 1 } ∷ []

abbrev daemon : Daemon
daemon = record { routes = two_routes; updates = start }

abbrev stranger : Sockaddr
stranger = sockaddr 172 16 0 9

stranger-if_iflookup :
    if_iflookup (env_of config).afswitch (env_of config).af_max config.ifnet (inet_canon stranger)
    ≡ none
unfolding if_iflookup iflookup_from is_from noted same inet_canon surroundings afswitch inet_switch
    inet_netmatch inet_netof_subnet address class_net in_classa in_classb first_of
stranger-if_iflookup = refl

rip_input-stranger_example :
    (untimed_routes
        (rip_input config
          (record { tv_sec = 9; tv_usec = 0 })
          3
          stranger
          1
          (response nets)
          daemon).0.routes
      ≡ untimed_routes two_routes)
    × ((rip_input config
          (record { tv_sec = 9; tv_usec = 0 })
          3
          stranger
          1
          (response nets)
          daemon).0.updates
        ≡ start)
    × ((rip_input config (record { tv_sec = 9; tv_usec = 0 }) 3 stranger 1 (response nets) daemon).1
        ≡ [])
rip_input-stranger_example =
    rip_input-stranger config (record { tv_sec = 9; tv_usec = 0 }) 3 stranger 1 nets daemon refl
      (refl, tt) stranger-if_iflookup

-- ===== src/Lib.antt =====
-- netkit: the network programs of a Unix system. Modelled here are the TFTP server and a part of its
-- client, the table and the requests of the talk daemon, the routing daemon with its tables, its
-- messages, its timer and its interfaces, the option negotiation and the data of the telnet server,
-- and those of the telnet client with its buffers.
--
-- Tftp (netkit-tftp)
--   Tftp/Buffers: tftp/tftpsubs.c, which client and server share. A `Subs` is its static state: two
--     buffers with their counters, the one that is next and the one in use, and the flags of the
--     newline conversion. `readit`, `read_ahead`, `writeit`, `write_behind`, `r_init` and `w_init`
--     keep their names. A file that is read is the bytes to come and whether a read fails; a file
--     that is written is its bytes, reversed, and a position, for the `fseek` of the conversion.
--   Tftp/Sender, Tftp/Receiver: `sendfile`, `recvfile`, `timer` and `nak` of tftpd/tftpd.c. A loop
--     around `recv` becomes a function `step` of what comes in: the alarm, a failing `recv`, a
--     packet, or a `runt`, a datagram of fewer than 4 bytes, behind which the code reads a header that
--     in part stood in the buffer before; the header it reads is given with it, any two numbers. A
--     `Turn` also says whether the `send` that follows succeeds. The signal handler's jump is the
--     step on the alarm. A transfer is the run of `step` on a list of turns.
--   Tftp/Transfer: the server's `sendfile` and a `recvfile`, the one's packets reaching the other.
--   Tftp/Request, Tftp/Access: `tftp`, `formats` and `validate_access` of tftpd/tftpd.c, and
--     `makerequest` of tftp/tftp.c. The file system is a parameter, a record of answers.
--   Tftp/Client: `sendfile` of tftp/tftp.c, in the same form as the server's; Tftp/Client/Get: its
--     `recvfile`, where both ways of leaving the loop close the file.
--   Tftp/Packet, Tftp/Segments: packets and events; the segments of a file, which both sides are
--     measured against.
-- Talkd (netkit-ntalk)
--   Talkd/Message: include/prot_talkd.h, and `byte_swap32` of talkd/repairs.c.
--   Talkd/Table: talkd/table.c. The doubly linked list is a list, newest first; a pointer into it is
--     a place. `time (NULL)` is a parameter.
--   Talkd/Process: talkd/process.c. utmp, `stat` and the result of `announce` are parameters.
-- Routed (netkit-routed)
--   Routed/Route: routed/table.h and the types of routed/af.h.
--   Routed/Table: routed/tables.c. A hash table is the list of its buckets, a pointer to a route its
--     place; what `rtioctl` is called with is kept in a list. The operations of an address family,
--     the search for interfaces and the kernel's answers are a record, `Surroundings`.
--   Routed/Interface, Routed/Inet: routed/if.c; routed/inet.c and routed/af.c, which fill that record
--     for the Internet. `ifnet` is a list, a pointer into it a place. AF_MAX, the macro
--     IN_EXPERIMENTAL, `rip_port`, and what a call through a null pointer of `afswitch` comes to are
--     parameters. `inet_makeaddr` is that of routed/inet.c, which is compiled where the C library is
--     not glibc 2; its callers pass it the host 0, for which the library's gives the same address
--     unless the first byte of the network is 0.
--   Routed/Output: `supply` and `toall` of routed/output.c, as the list of messages that they send.
--   Routed/Update: `lastbcast`, `nextbcast` and what sets them in input.c, timer.c and main.c.
--   Routed/Startup: `addrouteforif` and `add_ptopt_localrt` of routed/startup.c.
--   Routed/Timer: the ageing of routes in routed/timer.c.
--   Routed/Input: from `rip_input` of routed/input.c, the answer to a request, and the loop over the
--     routes of a response once its sender is accepted.
--   Routed/Message: `rip_input` as a whole, `timer`, `hup`, and the delayed update of `main`.
-- Telnetd (netkit-telnet/telnetd), as its Makefile builds it: without LINEMODE, AUTHENTICATE and ENCRYPT
--   Telnetd/Options, Telnetd/Options/Answers: the negotiation of options in state.c. The
--     functions take the bits and counters of the one option that they are about, and keep a list of
--     what is sent and done.
--   Telnetd/Receive: `telrcv` of state.c, and what it calls in telnetd.c for a command of the peer.
--   Telnetd/Send: the loop of `telnet` in telnetd.c that escapes what the pty gives.
-- Telnet (netkit-telnet/telnet), as its Makefile builds it: with KLUDGELINEMODE and without TN3270
--   Telnet/Options: the negotiation of options in telnet.cc, in the same form as the server's.
--   Telnet/Receive: `telrcv` of telnet.cc, on the bytes that `netiring` holds. Whether it goes on is
--     decided on `ttyoring`, which is a list here; a byte that is put back is one that is looked at.
--   Telnet/Send: `telsnd` of telnet.cc, with `TerminalSpecialChars` of sys_bsd.cc. A byte of the
--     terminal goes through the parts of the loop's body, each a function; a command, and what the
--     special characters call, are kept as actions.
--   Telnet/Ring: ring.cc and ring.h. The buffer is a function of the index; the sink and the source
--     are functions of what is asked of them, and a failed assertion is a result.
--   Telnet/Peer, Telnet/Ends: one option between two ends, as a machine of two bits and a counter at
--     each end, with what is on its way; and the handlers of client and server as such ends.
--   Telnet/Screen, Telnet/Send/Typed: both programs together, from the pty to the terminal and back.
--
-- Numbers are natural numbers; block numbers wrap at 2 ^ 16, and `voodoo` at 2 ^ 32. The counters
-- `do_dont_resp` and `will_wont_resp` of telnetd are of type char in the source (telnetd/global.c) and
-- do not wrap here: the two agree as long as fewer than 128 answers are awaited at a time. Every loop
-- is a recursion on a list (bytes to come, turns, entries, records), except the filling of a buffer,
-- which counts down the places left in it; the loop of `telsnd`, which has fuel for two turns per
-- byte and two (`telsnd_loop-ends` shows that it is enough); that of `flush`, which has a turn for
-- each byte and one, as a write takes a byte at least (`flush_loop-Drains`), and without a turn left
-- would give `none`, as a failed assertion does; and the shift of `inet_hash`, which has fuel for the four bytes of an address (`shift_down-nonzero`).
--
-- Not modelled: sockets, `synchnet`, start-up and logging; a write to disk that fails, whose result
-- every caller ignores; the links of the talk table as memory (`expire` reads one after it is
-- freed); of the two telnet programs the suboptions, the negotiation of special characters (SLC),
-- the client's commands and the modes of the terminal; the other programs of the repository.
pub mod Base
pub mod Tftp
pub mod Talkd
pub mod Routed
pub mod Telnetd
pub mod Telnet

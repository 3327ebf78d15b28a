-- ===== src/Tftp/Tests.antt =====
-- Runs of the transfers on small files.
use netkit.Base.{
  All, ℕ, ◌≡◌, refl, inl, inr, ◌⊎◌, ◌+◌, ◌^◌, ◌<◌, true, false, none, some, List, take, drop, [],
  ◌∷◌, arith,
}
use netkit.Tftp.Client.Get
use netkit.Tftp.Client.Get.Same.{delivered_by, no_faults, delivered_by-recvfile}
use netkit.Tftp.Client.Get.Deliver.{recvfile_gets}
use netkit.Tftp.Buffers.{
  contents, w_init, receive, count_of, writeit, write_behind, hand_over, Subs, Input, segsize, free,
}
use netkit.Tftp.Buffers.Netascii.{wire}
use netkit.Tftp.Buffers.{r_init, readit, get_bf, read_ahead, fill, next_char}
use netkit.Tftp.Buffers.Encode.{Reading, r_init-Reading, readit_lem, filled}
use netkit.Tftp.Buffers.Decode.{written, written-wire}
use netkit.Tftp.Receiver.Complete.{segments, recvfile_completes}
use netkit.Tftp.Packet.{Turn, alarm, empty, three_bytes, packet, runt, op_data, op_ack}
use netkit.Tftp.Segments.{fulls, segment, after, joined}
use netkit.Tftp.Sender.{sendfile, start}
use netkit.Tftp.Sender.Sound.{Good, sendfile-Good}
use netkit.Tftp.Receiver.Received.{FromFile, IsHarmless}
use netkit.Tftp.Sender.Finish.{sendfile-finishes, acks, is_finished}
use netkit.Tftp.Receiver.{recvfile, delivered, resend, Outcome}
use netkit.Tftp.Transfer.{sent_of, CameFrom, transfer-delivers}
use netkit.Tftp.Receiver.Deliver.{recvfile_no_resend}
use netkit.Tftp.Receiver.Truncate.{AreFull, cut_off, recvfile_truncates}

abbrev zeros : Subs
zeros = record {
  bf0 = record { counter = free; body = [] };
  bf1 = record { counter = free; body = [] };
  nextone = false;
  current = false;
  newline = false;
  prevchar = none;
}

-- "a", LF, "b", CR
abbrev small_file : List ℕ
small_file = 97 ∷ 10 ∷ 98 ∷ 13 ∷ []

abbrev small_input : Input
small_input = record { rest = small_file; broken = false }

-- An alarm, and the acknowledgement of block 1.
abbrev late_ack : List Turn
late_ack =
    record { event = alarm; sends = true }
    ∷ record { event = packet op_ack 1 []; sends = true }
    ∷ []

sendfile-Good_example :
    Good (wire true small_file) late_ack (sendfile 5 5 25 zeros small_input true true late_ack)
sendfile-Good_example = sendfile-Good 5 5 25 zeros small_input true true late_ack refl

sendfile-finishes_example :
    is_finished
      (sendfile 5 5 25 zeros small_input true true (acks 0 (ℕ.suc (fulls (wire true small_file)))))
    ≡ true
sendfile-finishes_example = sendfile-finishes 5 5 25 zeros small_input true refl

-- The request's answer: a stale packet, an alarm, an empty datagram, then the only segment.
abbrev one_segment : List Turn
one_segment =
    record { event = packet op_ack 7 []; sends = true }
    ∷ record { event = alarm; sends = true }
    ∷ record { event = runt empty op_ack 7; sends = true }
    ∷ record { event = packet op_data 1 (97 ∷ 13 ∷ 10 ∷ 98 ∷ 13 ∷ 0 ∷ []); sends = true }
    ∷ []

abbrev received : Outcome
received = recvfile 5 25 zeros true true one_segment

delivered-received : delivered received ≡ some small_file
unfolding recvfile contents w_init receive hand_over writeit write_behind segsize
delivered-received = refl

one_segment-FromFile : All (FromFile (wire true small_file)) one_segment
unfolding wire segment after segsize
one_segment-FromFile =
    (inl (omega arith), (tt, (omega arith, (inr (0, omega arith, refl, refl), tt))))

one_segment-IsHarmless : All IsHarmless one_segment
one_segment-IsHarmless = (tt, (tt, (omega arith, (tt, tt))))

one_segment_small : fulls (wire true small_file) + 1 < 2 ^ 16
unfolding wire segsize
one_segment_small = omega arith

abbrev sent : netkit.Tftp.Sender.Outcome
sent = sendfile 5 5 25 zeros small_input true true late_ack

one_segment-CameFrom : All (CameFrom (sent_of sent)) one_segment
unfolding sendfile start r_init readit read_ahead fill next_char segsize
one_segment-CameFrom = (inl (omega arith), (tt, (tt, (inr (inl refl), tt))))

transfer-delivers_example : (delivered received ≡ none) ⊎ (delivered received ≡ some small_file)
transfer-delivers_example =
    transfer-delivers 5 5 25 5 25 zeros zeros small_input true true true late_ack one_segment refl
      one_segment_small one_segment-CameFrom one_segment-IsHarmless

delivered_by-recvfile_example :
    delivered_by (Get.recvfile 5 5 25 zeros (97 ∷ []) (98 ∷ []) true true one_segment)
    ≡ delivered (recvfile 5 25 zeros true true (no_faults one_segment))
delivered_by-recvfile_example =
    delivered_by-recvfile 5 5 25 zeros (97 ∷ []) (98 ∷ []) true true one_segment
      one_segment-IsHarmless

recvfile_gets_example :
    (delivered_by (Get.recvfile 5 5 25 zeros (97 ∷ []) (98 ∷ []) true true one_segment) ≡ none)
    ⊎ (delivered_by (Get.recvfile 5 5 25 zeros (97 ∷ []) (98 ∷ []) true true one_segment)
        ≡ some small_file)
recvfile_gets_example =
    recvfile_gets 5 5 25 5 5 25 zeros zeros small_input (97 ∷ []) (98 ∷ []) true true true late_ack
      one_segment refl one_segment_small one_segment-CameFrom

recvfile_no_resend_example : resend received 10 ≡ false
recvfile_no_resend_example =
    recvfile_no_resend 5 25 small_file zeros true true one_segment 10 one_segment_small
      one_segment-FromFile

recvfile_completes_example :
    delivered (
      recvfile 5 25 zeros true true
        (segments (wire true small_file) 0 (ℕ.suc (fulls (wire true small_file)))))
    ≡ some small_file
recvfile_completes_example = recvfile_completes 5 25 small_file zeros true

fresh-Reading : Reading (r_init zeros) small_input true (wire true small_file)
fresh-Reading = r_init-Reading zeros small_input true refl

readit_lem_example :
    let (b, s', i') = readit (r_init zeros) small_input true in
    (b ≡ filled (take segsize (wire true small_file)))
    × (get_bf s' s'.current ≡ filled (take segsize (wire true small_file)))
    × Reading s' i' true (drop segsize (wire true small_file))
readit_lem_example = readit_lem fresh-Reading

written-wire_example : contents (written true (wire true small_file)).1 ≡ small_file
written-wire_example = written-wire true small_file

-- A packet that is no data packet, and an empty datagram: on a little endian host the two fields that
-- `ntohs` has swapped in the buffer, 768 and 256, are swapped again, to those of the first data
-- packet. The transfer ends, with an empty file.
abbrev header_again : List Turn
header_again =
    record { event = packet 768 256 []; sends = true }
    ∷ record { event = runt empty op_data 1; sends = true }
    ∷ []

delivered-recvfile-header_again : delivered (recvfile 5 25 zeros false true header_again) ≡ some []
unfolding recvfile contents w_init receive hand_over writeit count_of write_behind segsize
delivered-recvfile-header_again = refl

abbrev repeated : ℕ → List ℕ
repeated ℕ.zero = 98 ∷ []
repeated (ℕ.suc n) = 97 ∷ repeated n

-- A full segment, and more.
abbrev long_file : List ℕ
long_file = repeated 600

long_file-AreFull : AreFull long_file 0 1
unfolding segment after segsize
long_file-AreFull = (refl, tt)

recvfile_truncates_example :
    delivered (recvfile 5 25 zeros false true (cut_off three_bytes long_file 0 1))
    ≡ some (joined 1 long_file)
recvfile_truncates_example = recvfile_truncates 5 25 long_file zeros three_bytes 1 long_file-AreFull

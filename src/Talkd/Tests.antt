-- ===== src/Talkd/Tests.antt =====
-- Runs of the talk daemon on small inputs.
use netkit.Base.{ℕ, ◌≡◌, ◌≢◌, ◌<◌, refl, true, none, List, [], ◌∷◌, replicate, arith, ◌+◌, ◌%◌, ◌^◌}
use netkit.Talkd.Message.{
  CtlMsg, CtlResponse, TalkAddr, leave_invite, look_up, delete, success, byte_swap32, str_eq,
}
use netkit.Talkd.Table.{Daemon, new_id, max_id, find_index, expire}
use netkit.Talkd.Table.Laws.{DistinctKeys}
use netkit.Talkd.Table.Ids.{nth_id, nth_id_unique}
use netkit.Talkd.Process.{System, process_request, voodoo, terminate}
use netkit.Talkd.Process.Keys.{process_request-DistinctKeys}
use netkit.Talkd.Process.Rendezvous.{
  IsNew, opened, process_request-new, look_up-finds, delete-invited,
}
use netkit.Talkd.Process.Swapped.{voodoo-byte_swap32}

abbrev padded : ℕ → List ℕ
padded c = c ∷ replicate 11 0

abbrev here : TalkAddr
here = record { family = 2; port = 517; address = 1 }

abbrev asks : ℕ → ℕ → ℕ → ℕ → CtlMsg
asks kind id caller callee = record {
  vers = 1;
  kind = kind;
  id_num = id;
  addr = here;
  ctl_addr = here;
  pid = 7;
  l_name = padded caller;
  r_name = padded callee;
  r_tty = replicate 16 0;
}

abbrev blank : CtlResponse
blank = record { vers = 0; kind = 0; answer = 42; id_num = 0; addr = here }

abbrev at : ℕ → System
at t = record { utmp = []; stat = λ line. none; announced = λ m. 0; now = t; stamp = t }

abbrev started : Daemon
started = record { table = []; current_id = 0 }

invite-IsNew : IsNew (at 5) (asks leave_invite 0 97 98) started
unfolding find_index expire
invite-IsNew = refl

process_request-DistinctKeys_example :
    DistinctKeys (process_request (at 5) (asks leave_invite 0 97 98) blank started).1.table
process_request-DistinctKeys_example =
    process_request-DistinctKeys (at 5) (asks leave_invite 0 97 98) blank started tt

l_name_meets :
    str_eq (terminate (asks look_up 0 98 97)).l_name (terminate (asks leave_invite 0 97 98)).r_name
    ≡ true
unfolding terminate str_eq
l_name_meets = refl

r_name_meets :
    str_eq (terminate (asks look_up 0 98 97)).r_name (terminate (asks leave_invite 0 97 98)).l_name
    ≡ true
unfolding terminate str_eq
r_name_meets = refl

look_up-finds_example :
    (process_request
      (at 65)
      (asks look_up 0 98 97)
      blank
      (process_request (at 5) (asks leave_invite 0 97 98) blank started).1).0
    ≡ record (opened (asks look_up 0 98 97) blank) {
      id_num = (process_request (at 5) (asks leave_invite 0 97 98) blank started).0.id_num;
      addr = here;
      answer = success;
    }
look_up-finds_example =
    look_up-finds (at 5) (at 65) (asks leave_invite 0 97 98) (asks look_up 0 98 97) blank blank
      started (refl, refl) invite-IsNew (refl, refl) l_name_meets r_name_meets (omega arith)

given_one : 1 ≡ (process_request (at 5) (asks leave_invite 0 97 98) blank started).0.id_num
unfolding new_id
given_one =
    rw
      (process_request-new (at 5) (asks leave_invite 0 97 98) blank started (refl, refl)
        invite-IsNew)
      refl

delete-invited_example :
    process_request
      (at 9)
      (asks delete 1 97 98)
      blank
      (process_request (at 5) (asks leave_invite 0 97 98) blank started).1
    ≡ (
      record (opened (asks delete 1 97 98) blank) { answer = success },
      record { table = expire 5 []; current_id = new_id 0 },
    )
delete-invited_example =
    delete-invited (at 5) (at 9) (asks leave_invite 0 97 98) (asks delete 1 97 98) blank blank
      started (refl, refl) invite-IsNew (refl, refl) given_one

nth_id_unique_example :
    (0 < nth_id 3 15998)
    × (nth_id 3 15998 < max_id)
    × (nth_id 3 15998 ≢ 15998)
    × (nth_id 15999 15998 ≡ 15998)
nth_id_unique_example =
    nth_id_unique 3 15998 (omega arith) (omega arith) (omega arith) (omega arith)

voodoo-byte_swap32_example : voodoo (byte_swap32 ((byte_swap32 258 + 1) % 2 ^ 32)) ≡ 258
voodoo-byte_swap32_example = voodoo-byte_swap32 258 (omega arith)

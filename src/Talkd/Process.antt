-- ===== src/Talkd/Process.antt =====
-- netkit-ntalk/talkd/process.c: what the daemon does with a request.
pub mod Keys
pub mod Rendezvous
pub mod Swapped
pub mod Users
use netkit.Base.{
  ℕ, zero, suc, ◌+◌, ◌-◌, ◌/◌, ◌%◌, ◌^◌, Bool, true, false, not, Option, none, some, List, [], ◌∷◌,
  ◌==◌, ◌&&◌, ◌||◌, ltb, take, set, get_elem?, if◌then◌else◌,
}
use netkit.Talkd.Message.{
  CtlMsg, CtlResponse, TalkAddr, c_string, same_string, byte_swap32, name_size, tty_size,
  talk_version, leave_invite, look_up, delete, announce, success, not_here, failed,
  permission_denied, unknown_request, badversion,
}
use netkit.Talkd.Table.{
  Entry, Daemon, new_id, update_at, find_match, find_request, insert_table, delete_invite,
}

-- A record of utmp; the name and the line are arrays.
pub record Utmp : Type 0 where
  pub ut_type : ℕ
  pub ut_name : List ℕ
  pub ut_line : List ℕ

-- The system: utmp, the mode and access time of a terminal, what `announce` comes to for a request,
-- and the time, as `expire` reads it and as it is stamped on an entry.
pub record System : Type 0 where
  pub utmp : List Utmp
  pub stat : List ℕ → Option (ℕ × ℕ)
  pub announced : CtlMsg → ℕ
  pub now : ℕ
  pub stamp : ℕ

-- UT_NAMESIZE and USER_PROCESS of the C library.
abbrev pub ut_namesize : ℕ
ut_namesize = 32

abbrev pub user_process : ℕ
user_process = 7

-- `check_one_utmp`, as a test for SUCCESS.
pub check_one_utmp : Utmp → List ℕ → Bool
check_one_utmp ut name =
    same_string (c_string (take name_size name)) (c_string (take ut_namesize ut.ut_name))

-- `check_tty_perms`: the access time, at SUCCESS.
pub check_tty_perms : System → List ℕ → Option ℕ
check_tty_perms sys line = elim (sys.stat line) [
  | none ↦ none
  | some (mode, atime) ↦ if mode / 16 % 2 == 0 then none else some atime
]

-- The locals of `find_user`.
pub record Search : Type 0 where
  pub found : Bool
  pub ok : Bool
  pub best_time : ℕ
  pub best_tty : List ℕ

-- The record is of the user's.
pub is_users : List ℕ → Utmp → Bool
unfolding check_one_utmp
is_users name ut = ut.ut_type == user_process && check_one_utmp ut name

-- A record of the user's that is not on the terminal asked for.
pub look_at : System → Search → Utmp → Search
unfolding check_tty_perms
look_at sys s ut =
    let line = c_string ut.ut_line in
    elim (check_tty_perms sys line) [
      | none ↦ record s { found = true }
      | some this_time ↦
          if ltb s.best_time this_time
          then record { found = true; ok = true; best_time = this_time; best_tty = line }
          else record s { found = true; ok = true }
    ]

is_empty : List ℕ → Bool
is_empty [] = true
is_empty (_ ∷ _) = false

pub result_of : Search → ℕ
result_of s = if not s.found then not_here else if not s.ok then permission_denied else success

-- The loop of `find_user`, on the terminal asked for; the result and the terminal to use.
pub search_utmp : System → List ℕ → List ℕ → Search → List Utmp → ℕ × List ℕ
unfolding is_users look_at result_of is_empty
search_utmp sys name tty s [] = (result_of s, s.best_tty)
search_utmp sys name tty s (ut ∷ uts) =
    if is_users name ut && (not (is_empty tty) && same_string tty (c_string ut.ut_line))
    then (success, tty)
    else search_utmp sys name tty (if is_users name ut then look_at sys s ut else s) uts

pub find_user : System → List ℕ → List ℕ → ℕ × List ℕ
unfolding search_utmp
find_user sys name tty =
    search_utmp sys name (c_string tty)
      (record { found = false; ok = false; best_time = 0; best_tty = [] }) sys.utmp

-- The id of a client of the other byte order that added one to it as it stood.
pub voodoo : ℕ → ℕ
voodoo id = byte_swap32 ((byte_swap32 id + 2 ^ 32 - 1) % 2 ^ 32)

set_id : ℕ → Entry → Entry
set_id id e = record e { request = record e.request { id_num = id } }

-- `do_announce` of a request whose callee can be paged, where `find_request` found the entry at
-- the place `i`.
pub reannounce : System → CtlMsg → CtlResponse → Daemon → ℕ → Entry → CtlResponse × Daemon
unfolding voodoo set_id
reannounce sys mp rp d i e =
    let old = e.request.id_num in
    let id = new_id d.current_id in
    if ltb old mp.id_num || voodoo mp.id_num == old
    then (
      record rp { id_num = id; answer = sys.announced mp },
      record { table = update_at i (set_id id) d.table; current_id = id },
    )
    else (record rp { id_num = old; answer = success }, d)

-- `do_announce`
pub do_announce : System → CtlMsg → CtlResponse → Daemon → CtlResponse × Daemon
unfolding find_user reannounce
do_announce sys mp rp d =
    let (result, tty) = find_user sys mp.r_name mp.r_tty in
    let mp' = record mp { r_tty = tty } in
    let (place, table') = find_request sys.now sys.stamp mp' d.table in
    let d' = record d { table = table' } in
    let (id, inserted) = insert_table sys.stamp mp' d' in
    if not (result == success) then (record rp { answer = result }, d) else elim place [
      | none ↦
          (record rp { id_num = id; answer = sys.announced (record mp' { id_num = id }) }, inserted)
      | some i ↦ elim (get_elem? table' i) [
        | none ↦ (rp, d')
        | some e ↦ reannounce sys mp' rp d' i e
      ]
    ]

-- The case LEAVE_INVITE. A new invitation leaves `rp->answer` as it is.
pub do_leave_invite : System → CtlMsg → CtlResponse → Daemon → CtlResponse × Daemon
do_leave_invite sys mp rp d =
    let (place, table') = find_request sys.now sys.stamp mp d.table in
    let d' = record d { table = table' } in
    let (id, inserted) = insert_table sys.stamp mp d' in
    elim place [
      | none ↦ (record rp { id_num = id }, inserted)
      | some i ↦ elim (get_elem? table' i) [
        | none ↦ (rp, d')
        | some e ↦ (record rp { id_num = e.request.id_num; answer = success }, d')
      ]
    ]

-- The case LOOK_UP.
pub do_look_up : System → CtlMsg → CtlResponse → Daemon → CtlResponse × Daemon
do_look_up sys mp rp d =
    let (found, table') = find_match sys.now mp d.table in
    let d' = record d { table = table' } in
    elim found [
      | none ↦ (record rp { answer = not_here }, d')
      | some invite ↦
          (record rp { id_num = invite.id_num; addr = invite.addr; answer = success }, d')
    ]

-- The case DELETE.
pub do_delete : CtlMsg → CtlResponse → Daemon → CtlResponse × Daemon
do_delete mp rp d =
    let (answer, table') = delete_invite mp.id_num d.table in
    (record rp { answer = answer }, record d { table = table' })

-- The NULs at the ends of the names.
unfoldable pub terminate : CtlMsg → CtlMsg
terminate mp = record mp {
  l_name = set mp.l_name (name_size - 1) 0;
  r_name = set mp.r_name (name_size - 1) 0;
  r_tty = set mp.r_tty (tty_size - 1) 0;
}

-- `process_request`; `rp` is the response as the caller left it.
pub process_request : System → CtlMsg → CtlResponse → Daemon → CtlResponse × Daemon
unfolding terminate do_announce do_leave_invite do_look_up do_delete
process_request sys mp rp d =
    let mp' = terminate mp in
    let rp' = record rp { vers = talk_version; kind = mp.kind; id_num = 0 } in
    if not (mp.vers == talk_version)
    then (record rp' { answer = badversion }, d)
    else if mp.kind == announce
    then do_announce sys mp' rp' d
    else if mp.kind == leave_invite
    then do_leave_invite sys mp' rp' d
    else if mp.kind == look_up
    then do_look_up sys mp' rp' d
    else if mp.kind == delete
    then do_delete mp' rp' d
    else (record rp' { answer = unknown_request }, d)

-- ===== src/Talkd/Process/Rendezvous.antt =====
-- What becomes of an invitation that was left: looked up, left again, deleted, too old.
use netkit.Base.{
  ℕ, ◌+◌, ◌≤◌, ◌<◌, ◌≡◌, refl, true, false, none, some, List, ◌∷◌, arith, ◌==◌, All, ap, sym, ◌∙◌,
}
use netkit.Talkd.Message.{
  CtlMsg, CtlResponse, str_eq, success, talk_version, announce, leave_invite, look_up, delete,
  max_life,
}
use netkit.Talkd.Table.{
  Entry, Daemon, find_request, find_match, matches, find_index, delete_invite, delete_at,
  insert_table, new_id, repeats, expire, too_old,
}
use netkit.Talkd.Table.Laws.{find_request-none}
use netkit.Talkd.Process.{
  System, process_request, do_leave_invite, do_look_up, do_delete, terminate,
}

-- A request of the daemon's version and of a kind.
abbrev pub IsOf : ℕ → CtlMsg → Type 0
IsOf kind m = (m.vers ≡ talk_version) × (m.kind ≡ kind)

abbrev pub IsNew : System → CtlMsg → Daemon → Type 0
IsNew sys m d = find_index (repeats (terminate m)) (expire sys.now d.table) ≡ none

-- The entry and the daemon after a new invitation.
abbrev pub invited : System → CtlMsg → Daemon → Entry
invited sys m d = record {
  request = record (terminate m) { id_num = new_id d.current_id };
  time = sys.stamp;
}

abbrev pub with_invited : System → CtlMsg → Daemon → Daemon
with_invited sys m d = record {
  table = invited sys m d ∷ expire sys.now d.table;
  current_id = new_id d.current_id;
}

-- The response that a request's handler starts from.
abbrev pub opened : CtlMsg → CtlResponse → CtlResponse
opened m rp = record rp { vers = talk_version; kind = m.kind; id_num = 0 }

module _ (sys : System) (m : CtlMsg) (rp : CtlResponse) (d : Daemon) where
  process_request-leave_invite :
      IsOf leave_invite m
      → process_request sys m rp d ≡ do_leave_invite sys (terminate m) (opened m rp) d
  unfolding process_request
  process_request-leave_invite (v, k) =
      let a : (m.vers == talk_version) ≡ true = ground arith in
      let b : (m.kind == announce) ≡ false = ground arith in
      let c : (m.kind == leave_invite) ≡ true = ground arith in rw (a, b, c) refl

  process_request-look_up :
      IsOf look_up m → process_request sys m rp d ≡ do_look_up sys (terminate m) (opened m rp) d
  unfolding process_request
  process_request-look_up (v, k) =
      let a : (m.vers == talk_version) ≡ true = ground arith in
      let b : (m.kind == announce) ≡ false = ground arith in
      let c : (m.kind == leave_invite) ≡ false = ground arith in
      let e : (m.kind == look_up) ≡ true = ground arith in rw (a, b, c, e) refl

  process_request-delete :
      IsOf delete m → process_request sys m rp d ≡ do_delete (terminate m) (opened m rp) d
  unfolding process_request
  process_request-delete (v, k) =
      let a : (m.vers == talk_version) ≡ true = ground arith in
      let b : (m.kind == announce) ≡ false = ground arith in
      let c : (m.kind == leave_invite) ≡ false = ground arith in
      let e : (m.kind == look_up) ≡ false = ground arith in
      let g : (m.kind == delete) ≡ true = ground arith in rw (a, b, c, e, g) refl

do_leave_invite-new :
    (sys : System) (m : CtlMsg) (rp : CtlResponse) (d : Daemon)
    → (find_request sys.now sys.stamp m d.table).0 ≡ none
    → (find_request sys.now sys.stamp m d.table).1 ≡ expire sys.now d.table
    → do_leave_invite sys m rp d ≡ (
      record rp { id_num = new_id d.current_id },
      record {
        table =
            record { request = record m { id_num = new_id d.current_id }; time = sys.stamp }
            ∷ expire sys.now d.table;
        current_id = new_id d.current_id;
      },
    )
unfolding do_leave_invite insert_table
do_leave_invite-new sys m rp d h g = ground (arith, h, g)

-- A new invitation gets the next id and stands first in the table; the answer in the response is
-- the one that the caller left there.
pub process_request-new :
    (sys : System) (m : CtlMsg) (rp : CtlResponse) (d : Daemon)
    → IsOf leave_invite m
    → IsNew sys m d
    → process_request sys m rp d
      ≡ (record (opened m rp) { id_num = new_id d.current_id }, with_invited sys m d)
process_request-new sys m rp d h new =
    let f = find_request-none sys.now sys.stamp (terminate m) d.table new in
    rw (process_request-leave_invite sys m rp d h)
      (do_leave_invite-new sys (terminate m) (opened m rp) d (ap (λ r. r.0) f) (ap (λ r. r.1) f))

expire-live :
    (now : ℕ) (e : Entry) (es : List Entry)
    → now ≤ e.time + max_life
    → expire now (e ∷ es) ≡ e ∷ expire now es
unfolding expire too_old
expire-live now e es h = ground arith

find_match-live :
    (now : ℕ) (q : CtlMsg) (es rest : List Entry) (e : Entry)
    → expire now es ≡ e ∷ rest
    → matches q e ≡ true
    → (find_match now q es).0 ≡ some e.request
unfolding find_match find_index
find_match-live now q es rest e h y = ground (arith, h, y)

do_look_up-some :
    (sys : System) (q : CtlMsg) (rq : CtlResponse) (d : Daemon) (r : CtlMsg)
    → (find_match sys.now q d.table).0 ≡ some r
    → (do_look_up sys q rq d).0 ≡ record rq { id_num = r.id_num; addr = r.addr; answer = success }
unfolding do_look_up
do_look_up-some sys q rq d r h = ground (arith, h)

invited-matches :
    (sys : System) (m q : CtlMsg) (d : Daemon)
    → IsOf leave_invite m
    → str_eq (terminate q).l_name (terminate m).r_name ≡ true
    → str_eq (terminate q).r_name (terminate m).l_name ≡ true
    → matches (terminate q) (invited sys m d) ≡ true
unfolding matches terminate
invited-matches sys m q d (v, k) l r = rw (l, r, k) refl

-- A caller that leaves a new invitation is found by its callee's LOOK_UP with the names the other
-- way round, up to MAX_LIFE after it: the answer is SUCCESS, the address the caller's, the id the
-- one that the caller was given.
pub look_up-finds :
    (sys later : System) (m q : CtlMsg) (rp rq : CtlResponse) (d : Daemon)
    → IsOf leave_invite m
    → IsNew sys m d
    → IsOf look_up q
    → str_eq (terminate q).l_name (terminate m).r_name ≡ true
    → str_eq (terminate q).r_name (terminate m).l_name ≡ true
    → later.now ≤ sys.stamp + max_life
    → (process_request later q rq (process_request sys m rp d).1).0 ≡ record (opened q rq) {
      id_num = (process_request sys m rp d).0.id_num;
      addr = m.addr;
      answer = success;
    }
unfolding terminate
look_up-finds sys later m q rp rq d h new hq l r live =
    rw
      (
        process_request-new sys m rp d h new,
        process_request-look_up later q rq (with_invited sys m d) hq,
      )
      (do_look_up-some later (terminate q) (opened q rq) (with_invited sys m d)
        (invited sys m d).request
        (find_match-live later.now (terminate q) (with_invited sys m d).table
          (expire later.now (expire sys.now d.table)) (invited sys m d)
          (expire-live later.now (invited sys m d) (expire sys.now d.table) live)
          (invited-matches sys m q d h l r)))

-- No entry is live.
abbrev pub AllOld : ℕ → List Entry → Type 0
AllOld now = All (λ e. e.time + max_life < now)

delete_invite-first :
    (id : ℕ) (e : Entry) (es : List Entry)
    → e.request.id_num ≡ id
    → delete_invite id (e ∷ es) ≡ (success, es)
unfolding delete_invite find_index delete_at
delete_invite-first id e es h = ground (arith, h)

do_delete-first :
    (q : CtlMsg) (rq : CtlResponse) (d : Daemon) (es : List Entry)
    → delete_invite q.id_num d.table ≡ (success, es)
    → do_delete q rq d ≡ (record rq { answer = success }, record d { table = es })
unfolding do_delete
do_delete-first q rq d es h = ground (arith, h)

-- A DELETE of the id that a new invitation was given is answered SUCCESS, and leaves the table as
-- it was before the invitation but for the entries that were too old by then.
pub delete-invited :
    (sys later : System) (m q : CtlMsg) (rp rq : CtlResponse) (d : Daemon)
    → IsOf leave_invite m
    → IsNew sys m d
    → IsOf delete q
    → q.id_num ≡ (process_request sys m rp d).0.id_num
    → process_request later q rq (process_request sys m rp d).1 ≡ (
      record (opened q rq) { answer = success },
      record { table = expire sys.now d.table; current_id = new_id d.current_id },
    )
unfolding terminate
delete-invited sys later m q rp rq d h new hq same =
    let named : new_id d.current_id ≡ q.id_num =
      sym (same ∙ ap (λ r. r.0.id_num) (process_request-new sys m rp d h new)) in
    rw
      (
        process_request-new sys m rp d h new,
        process_request-delete later q rq (with_invited sys m d) hq,
      )
      (do_delete-first (terminate q) (opened q rq) (with_invited sys m d) (expire sys.now d.table)
        (delete_invite-first q.id_num (invited sys m d) (expire sys.now d.table) named))

-- ===== src/Talkd/Table.antt =====
-- netkit-ntalk/talkd/table.c: the invitations, newest first, each with the time of its last use.
pub mod Laws
pub mod Ids
use netkit.Base.{
  ℕ, zero, suc, ◌+◌, ◌-◌, ◌%◌, Bool, true, false, Option, none, some, List, [], ◌∷◌, ◌==◌, ◌&&◌,
  ltb, get_elem?, set, if◌then◌else◌,
}
use netkit.Talkd.Message.{CtlMsg, str_eq, leave_invite, max_life, success, not_here}

-- `TABLE_ENTRY`; its two links are the places in the list.
pub record Entry : Type 0 where
  pub request : CtlMsg
  pub time : ℕ

-- `table`, and the `current_id` of `new_id`.
pub record Daemon : Type 0 where
  pub table : List Entry
  pub current_id : ℕ

abbrev pub max_id : ℕ
max_id = 16000

-- `new_id`: the number returned is the new `current_id`.
unfoldable pub new_id : ℕ → ℕ
new_id current = let next = (current + 1) % max_id in if next == 0 then 1 else next

-- The test of `expire`. A time that lies ahead is not too old.
unfoldable pub too_old : ℕ → Entry → Bool
too_old now e = ltb max_life (now - e.time)

-- `expire`: each entry that is too old is unlinked and freed. (The loop then reads the `next` of
-- the freed entry; here it is what it was.)
unfoldable pub expire : ℕ → List Entry → List Entry
unfolding too_old
expire now [] = []
expire now (e ∷ es) = let rest = expire now es in if too_old now e then rest else e ∷ rest

-- The place of the first entry that passes a test.
unfoldable pub find_index : (Entry → Bool) → List Entry → Option ℕ
find_index p [] = none
find_index p (e ∷ es) =
    let rest = find_index p es in
    if p e then some 0 else elim rest [ none ↦ none | some i ↦ some (suc i) ]

-- The test of `find_match`.
unfoldable pub matches : CtlMsg → Entry → Bool
matches request e =
    str_eq request.l_name e.request.r_name
    && (str_eq request.r_name e.request.l_name && e.request.kind == leave_invite)

-- `find_match`, at the time of its `expire`: the request found, and the table.
unfoldable pub find_match : ℕ → CtlMsg → List Entry → Option CtlMsg × List Entry
unfolding expire find_index matches
find_match now request table =
    let live = expire now table in
    elim (find_index (matches request) live) [
      | none ↦ (none, live)
      | some i ↦ elim (get_elem? live i) [ none ↦ (none, live) | some e ↦ (some e.request, live) ]
    ]

-- The test of `find_request`.
unfoldable pub repeats : CtlMsg → Entry → Bool
repeats request e =
    str_eq request.r_name e.request.r_name
    && (str_eq request.l_name e.request.l_name
        && (request.kind == e.request.kind && request.pid == e.request.pid))

-- Change the entry at a place.
unfoldable pub update_at : ℕ → (Entry → Entry) → List Entry → List Entry
update_at i f [] = []
update_at zero f (e ∷ es) = f e ∷ es
update_at (suc i) f (e ∷ es) = e ∷ update_at i f es

-- `find_request`: the place of the entry found, whose time is set to `stamp`.
unfoldable pub find_request : ℕ → ℕ → CtlMsg → List Entry → Option ℕ × List Entry
unfolding expire find_index repeats update_at
find_request now stamp request table =
    let live = expire now table in
    elim (find_index (repeats request) live) [
      | none ↦ (none, live)
      | some i ↦ (some i, update_at i (λ e. record e { time = stamp }) live)
    ]

-- `insert_table`: the request gets a new id, which the response names too, and stands first.
unfoldable pub insert_table : ℕ → CtlMsg → Daemon → ℕ × Daemon
unfolding new_id
insert_table stamp request d =
    let id = new_id d.current_id in
    (
      id,
      record {
        table = record { request = record request { id_num = id }; time = stamp } ∷ d.table;
        current_id = id;
      },
    )

-- `deleteit` of the entry at a place.
unfoldable pub delete_at : ℕ → List Entry → List Entry
delete_at i [] = []
delete_at zero (e ∷ es) = es
delete_at (suc i) (e ∷ es) = e ∷ delete_at i es

-- `delete_invite`
unfoldable pub delete_invite : ℕ → List Entry → ℕ × List Entry
unfolding find_index delete_at
delete_invite id_num table = elim (find_index (λ e. e.request.id_num == id_num) table) [
  | none ↦ (not_here, table)
  | some i ↦ (success, delete_at i table)
]

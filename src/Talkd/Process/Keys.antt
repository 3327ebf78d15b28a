-- ===== src/Talkd/Process/Keys.antt =====
-- The keys of the table across the requests of the daemon.
use netkit.Base.{
  ℕ, ◌≡◌, refl, true, false, Option, none, some, List, [], ◌∷◌, arith, ◌==◌, Bool-cases,
  Option-cases, inl, inr, get_elem?, ◌||◌, ltb, ◌⊎◌,
}
use netkit.Talkd.Message.{
  CtlMsg, CtlResponse, success, talk_version, announce, leave_invite, look_up, delete,
}
use netkit.Talkd.Table.{
  Entry, Daemon, find_request, delete_invite, insert_table, update_at, new_id, repeats, expire,
}
use netkit.Talkd.Table.Laws.{
  Fresh, DistinctKeys, expire-DistinctKeys, find_match-table, find_request-DistinctKeys,
  find_request-Fresh, delete_invite-DistinctKeys, update_at-DistinctKeys,
}
use netkit.Talkd.Process.{
  System, process_request, do_announce, do_leave_invite, do_look_up, do_delete, reannounce, set_id,
  find_user, terminate, voodoo,
}

Fresh-set_id :
    (id : ℕ) (m : CtlMsg) (es : List Entry) → Fresh m es → Fresh (record m { id_num = id }) es
unfolding repeats
Fresh-set_id id m [] h = tt
Fresh-set_id id m (e ∷ es) (he, hs) = (he, Fresh-set_id id m es hs)

insert_table-DistinctKeys :
    (stamp : ℕ) (m : CtlMsg) (d : Daemon)
    → DistinctKeys d.table
    → Fresh m d.table
    → DistinctKeys (insert_table stamp m d).1.table
unfolding insert_table
insert_table-DistinctKeys stamp m d h f = (Fresh-set_id (new_id d.current_id) m d.table f, h)

set_id-DistinctKeys :
    (id i : ℕ) (es : List Entry) → DistinctKeys es → DistinctKeys (update_at i (set_id id) es)
unfolding set_id repeats
set_id-DistinctKeys id i es h =
    update_at-DistinctKeys (set_id id) (λ a b. refl) (λ a b. refl) i es h

module _ (sys : System) (mp : CtlMsg) (rp : CtlResponse) (d : Daemon) where
  do_look_up-table : (do_look_up sys mp rp d).1.table ≡ expire sys.now d.table
  unfolding do_look_up
  do_look_up-table = ground (arith, find_match-table sys.now sys.stamp mp d.table)

  do_delete-table : (do_delete mp rp d).1.table ≡ (delete_invite mp.id_num d.table).1
  unfolding do_delete
  do_delete-table = refl

  reannounce-DistinctKeys :
      (i : ℕ) (e : Entry) → DistinctKeys d.table → DistinctKeys (reannounce sys mp rp d i e).1.table
  unfolding reannounce
  reannounce-DistinctKeys i e h =
      elim (Bool-cases (ltb e.request.id_num mp.id_num || voodoo mp.id_num == e.request.id_num)) [
        | inl t ↦ rw t (set_id-DistinctKeys (new_id d.current_id) i d.table h)
        | inr t ↦ rw t h
      ]

  do_leave_invite-none :
      (find_request sys.now sys.stamp mp d.table).0 ≡ none
      → (do_leave_invite sys mp rp d).1.table
        ≡ (insert_table sys.stamp mp
            (record d { table = (find_request sys.now sys.stamp mp d.table).1 })).1.table
  unfolding do_leave_invite
  do_leave_invite-none h = ground (arith, h)

  do_leave_invite-some :
      (i : ℕ)
      → (find_request sys.now sys.stamp mp d.table).0 ≡ some i
      → (do_leave_invite sys mp rp d).1.table ≡ (find_request sys.now sys.stamp mp d.table).1
  unfolding do_leave_invite
  do_leave_invite-some i h = ground (arith, h)

  do_leave_invite-DistinctKeys :
      DistinctKeys d.table → DistinctKeys (do_leave_invite sys mp rp d).1.table
  do_leave_invite-DistinctKeys h =
      let kept = find_request-DistinctKeys sys.now sys.stamp mp d.table h in
      elim (Option-cases (find_request sys.now sys.stamp mp d.table).0) [
        | inl e ↦ rw (do_leave_invite-none e) (
            insert_table-DistinctKeys sys.stamp mp
              (record d { table = (find_request sys.now sys.stamp mp d.table).1 }) kept
              (find_request-Fresh sys.now sys.stamp mp d.table e))
        | inr (i, e) ↦ rw (do_leave_invite-some i e) kept
      ]

  do_look_up-DistinctKeys : DistinctKeys d.table → DistinctKeys (do_look_up sys mp rp d).1.table
  do_look_up-DistinctKeys h = rw do_look_up-table (expire-DistinctKeys sys.now d.table h)

  do_delete-DistinctKeys : DistinctKeys d.table → DistinctKeys (do_delete mp rp d).1.table
  do_delete-DistinctKeys h = rw do_delete-table (delete_invite-DistinctKeys mp.id_num d.table h)

-- The announcement, with the terminal to use in the request.
module _ (sys : System) (mp : CtlMsg) (rp : CtlResponse) (d : Daemon) where
  abbrev routed : CtlMsg
  routed = record mp { r_tty = (find_user sys mp.r_name mp.r_tty).1 }

  abbrev looked : Option ℕ × List Entry
  looked = find_request sys.now sys.stamp routed d.table

  do_announce-failed :
      ((find_user sys mp.r_name mp.r_tty).0 == success) ≡ false → (do_announce sys mp rp d).1 ≡ d
  unfolding do_announce
  do_announce-failed h = ground (arith, h)

  do_announce-none :
      ((find_user sys mp.r_name mp.r_tty).0 == success) ≡ true
      → looked.0 ≡ none
      → (do_announce sys mp rp d).1.table
        ≡ (insert_table sys.stamp routed (record d { table = looked.1 })).1.table
  unfolding do_announce
  do_announce-none h e = ground (arith, h, e)

  do_announce-some :
      (i : ℕ)
      → ((find_user sys mp.r_name mp.r_tty).0 == success) ≡ true
      → looked.0 ≡ some i
      → ((do_announce sys mp rp d).1.table ≡ looked.1)
        ⊎ ((e : Entry) × ((do_announce sys mp rp d).1.table
              ≡ (reannounce sys routed rp (record d { table = looked.1 }) i e).1.table))
  unfolding do_announce
  do_announce-some i h e = elim (Option-cases (get_elem? looked.1 i)) [
    | inl g ↦ inl (ground (arith, h, e, g))
    | inr (x, g) ↦ inr (x, ground (arith, h, e, g))
  ]

  do_announce-DistinctKeys : DistinctKeys d.table → DistinctKeys (do_announce sys mp rp d).1.table
  do_announce-DistinctKeys h =
      let kept = find_request-DistinctKeys sys.now sys.stamp routed d.table h in
      elim (Bool-cases ((find_user sys mp.r_name mp.r_tty).0 == success)) [
        | inr t ↦ rw (do_announce-failed t) h
        | inl t ↦ elim (Option-cases looked.0) [
          | inl e ↦ rw (do_announce-none t e) (
              insert_table-DistinctKeys sys.stamp routed (record d { table = looked.1 }) kept
                (find_request-Fresh sys.now sys.stamp routed d.table e))
          | inr (i, e) ↦ elim (do_announce-some i t e) [
            | inl g ↦ rw g kept
            | inr (x, g) ↦
                rw g
                  (reannounce-DistinctKeys sys routed rp (record d { table = looked.1 }) i x kept)
          ]
        ]
      ]

-- The daemon never comes to hold two entries with the same names, kind and process.
pub process_request-DistinctKeys :
    (sys : System) (mp : CtlMsg) (rp : CtlResponse) (d : Daemon)
    → DistinctKeys d.table
    → DistinctKeys (process_request sys mp rp d).1.table
unfolding process_request
process_request-DistinctKeys sys mp rp d h =
    let mp' = terminate mp in
    let rp' : CtlResponse = record rp { vers = talk_version; kind = mp.kind; id_num = 0 } in
    elim (Bool-cases (mp.vers == talk_version)) [
      | inr v ↦ rw v h
      | inl v ↦ elim (Bool-cases (mp.kind == announce)) [
        | inl a ↦ rw (v, a) (do_announce-DistinctKeys sys mp' rp' d h)
        | inr a ↦ elim (Bool-cases (mp.kind == leave_invite)) [
          | inl b ↦ rw (v, a, b) (do_leave_invite-DistinctKeys sys mp' rp' d h)
          | inr b ↦ elim (Bool-cases (mp.kind == look_up)) [
            | inl c ↦ rw (v, a, b, c) (do_look_up-DistinctKeys sys mp' rp' d h)
            | inr c ↦ elim (Bool-cases (mp.kind == delete)) [
              | inl e ↦ rw (v, a, b, c, e) (do_delete-DistinctKeys sys mp' rp' d h)
              | inr e ↦ rw (v, a, b, c, e) h
            ]
          ]
        ]
      ]
    ]

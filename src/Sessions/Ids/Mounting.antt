-- ===== src/Sessions/Ids/Mounting.antt =====
-- src/session.c, `tnfs_mount` and `tnfs_umount`: the ID of a new session is one that no other has.
use tnfsd.Base.{
  ℕ, suc, true, not, Option, none, some, Option-cases, List, [], ◌∷◌, ◌+◌, ◌==◌, ◌≡◌, refl, sym,
  subst, arith, ltb, if◌then◌else◌, inl, inr, Bool-cases, get_elem?, set, length,
}
use tnfsd.Os.{Os, Call}
use tnfsd.Tnfs.{last_byte, Config, Session, Header, Buf, Io, Ctx, asked, fresh_session}
use tnfsd.Strl.{strlcpy}
use tnfsd.Path.{validate_dir}
use tnfsd.Send.{reply, tnfs_send}
use tnfsd.Sessions.{
  Slots, Server, tnfs_freesession, tnfs_findsession_ipaddr, find_ip, close_session, tnfs_newsid,
}
use tnfsd.Sessions.Mount.{
  free_index, fill_slot, tnfs_allocsession, make_room, answer_mount, set_up, tnfs_mount,
  tnfs_umount,
}
use tnfsd.Sessions.Table.{has_sid, Free, tnfs_newsid-Free}
use tnfsd.Sessions.Change.{set-set}
use tnfsd.Sessions.Ids.{Distinct, Free-set, Distinct-set-none, Distinct-set-some, Free-of_Distinct}

-- The slot `i` is, or may be, that of a session with this ID.
abbrev Seat : ℕ → ℕ → Slots → Type 0
Seat i sid slots = Distinct slots × Free sid (set slots i none)

Seat-set :
    (i : ℕ) (s : Session) (slots : Slots) → Seat i s.sid slots → Seat i s.sid (set slots i (some s))
Seat-set i s slots seat =
    (Distinct-set-some i s slots seat.0 seat.1, rw (set-set i (some s) none slots) seat.1)

module _ (os : Os) (ip now : ℕ) where
  find_ip-Free :
      (sid count : ℕ) (first : Option ℕ) (i : ℕ) (slots : Slots) (io : Io)
      → Free sid slots
      → Free sid (find_ip os ip now count first i slots io).slots
  unfolding find_ip has_sid
  find_ip-Free sid count first i [] io free = tt
  find_ip-Free sid count first i (none ∷ rest) io free =
      (refl, find_ip-Free sid count first (suc i) rest io free.1)
  find_ip-Free sid count first i (some s ∷ rest) io free = grind (
    arith,
    find_ip-Free sid count first (suc i) rest (close_session os s io) free.1,
    find_ip-Free sid count first (suc i) rest io free.1,
    find_ip-Free sid (suc count) (if count == 0 then some i else first) (suc i) rest io free.1,
  )

  find_ip-Distinct :
      (count : ℕ) (first : Option ℕ) (i : ℕ) (slots : Slots) (io : Io)
      → Distinct slots
      → Distinct (find_ip os ip now count first i slots io).slots
  unfolding find_ip Distinct
  find_ip-Distinct count first i [] io d = tt
  find_ip-Distinct count first i (none ∷ rest) io d =
      (tt, find_ip-Distinct count first (suc i) rest io d.1)
  find_ip-Distinct count first i (some s ∷ rest) io d =
      let io' = close_session os s io in
      let first' = if count == 0 then some i else first in
      grind (
        arith,
        find_ip-Distinct count first (suc i) rest io' d.1,
        find_ip-Distinct count first (suc i) rest io d.1,
        find_ip-Distinct (suc count) first' (suc i) rest io d.1,
        find_ip-Free s.sid count first (suc i) rest io d.0,
        find_ip-Free s.sid (suc count) first' (suc i) rest io d.0,
        d,
      )

module _ (os : Os) where
  make_room-Distinct :
      (ip : ℕ) (srv : Server)
      → Distinct srv.slist
      → Distinct (make_room os ip srv).1.slist
        × (ltb 0 (make_room os ip srv).0 ≡ true
            → Free (make_room os ip srv).0 (make_room os ip srv).1.slist)
  unfolding make_room tnfs_findsession_ipaddr tnfs_freesession
  make_room-Distinct ip srv d =
      let r = tnfs_findsession_ipaddr os ip srv in
      let left =
        find_ip-Distinct os ip (os.time srv.calls) 0 none 0 srv.slist (asked Call.time srv.io) d in
      elim (Option-cases r.found) [
        | inl nothing ↦ rw (nothing, make_room) (left, λ e. absurd (ground arith))
        | inr (i, f) ↦ elim (Option-cases (get_elem? r.slots i)) [
          | inl outside ↦ rw (f, outside, make_room) (left, λ e. absurd (ground arith))
          | inr (none, e) ↦ rw (f, e, make_room) (left, λ e. absurd (ground arith))
          | inr (some s, e) ↦
              rw (f, e, make_room)
                (Distinct-set-none i r.slots left, λ _. Free-of_Distinct i s r.slots left e)
        ]
      ]

  fill_slot-Seat :
      (i sid : ℕ) (srv : Server)
      → Distinct srv.slist
      → Free sid srv.slist
      → Seat i sid (fill_slot i sid srv).server.slist
  unfolding fill_slot fresh_session has_sid
  fill_slot-Seat i sid srv d free =
      Seat-set i (record fresh_session { sid = sid }) srv.slist
        (d, Free-set sid i none srv.slist free refl)

  fill_slot-sid :
      (i sid : ℕ) (srv : Server)
      → (fill_slot i sid srv).slot ≡ some (i, record fresh_session { sid = sid })
  unfolding fill_slot
  fill_slot-sid i sid srv = refl

  -- What is allocated, if anything, has a seat.
  abbrev Allocated : Option (ℕ × Session) → Slots → Type 0
  Allocated none slots = Unit {0}
  Allocated (some (i, s)) slots = Seat i s.sid slots

  tnfs_allocsession-Distinct :
      (with_sid : ℕ) (srv : Server)
      → Distinct srv.slist
      → (ltb 0 with_sid ≡ true → Free with_sid srv.slist)
      → Distinct (tnfs_allocsession os with_sid srv).server.slist
        × Allocated
            (tnfs_allocsession os with_sid srv).slot
            (tnfs_allocsession os with_sid srv).server.slist
  unfolding tnfs_allocsession
  tnfs_allocsession-Distinct with_sid srv d free = elim (Option-cases (free_index srv.slist 0)) [
    | inl full ↦ rw (full, tnfs_allocsession) (d, tt)
    | inr (i, e) ↦
        let io = asked (Call.malloc os.session_size) srv.io in
        let drawn = tnfs_newsid os srv.slist io in
        elim (Bool-cases (os.malloc srv.calls os.session_size)) [
          | inr fails ↦ rw (e, fails, tnfs_allocsession) (d, tt)
          | inl got ↦ elim (Bool-cases (ltb 0 with_sid)) [
            | inl reused ↦
                rw (e, got, reused, tnfs_allocsession)
                  (let q = fill_slot-Seat i with_sid (record srv { io = io }) d (free reused) in
                    (q.0, q))
            | inr fresh ↦ elim (Bool-cases (drawn.0 == 0)) [
              | inl used_up ↦ rw (e, got, fresh, used_up, tnfs_allocsession) (d, tt)
              | inr ok ↦
                  rw (e, got, fresh, ok, tnfs_allocsession)
                    (let q =
                        fill_slot-Seat i drawn.0 (record srv { io = drawn.1 }) d
                          (tnfs_newsid-Free os srv.slist io ok).0 in
                      (q.0, q))
            ]
          ]
        ]
  ]

sid-reply :
    (os : Os) (hdr : Header) (status : ℕ) (msg : List ℕ) (x : Ctx)
    → (reply os hdr status msg x).sess.sid ≡ x.sess.sid
unfolding reply tnfs_send
sid-reply os hdr status msg x = ground arith

module _ (os : Os) (conf : Config) (hdr : Header) where
  answer_mount-Distinct :
      (i : ℕ) (s : Session) (srv : Server)
      → Seat i s.sid srv.slist
      → Distinct (answer_mount os conf hdr i s srv).slist
  unfolding answer_mount tnfs_freesession
  answer_mount-Distinct i s srv seat =
      let v = validate_dir os conf s srv.io in
      let x : Ctx = record { io = v.1; sess = s } in
      let msg = 0x03 ∷ 0x01 ∷ 0xE8 ∷ 0x03 ∷ [] in
      let y = reply os (record hdr { sid = s.sid }) 0 msg x in
      let same = sid-reply os (record hdr { sid = s.sid }) 0 msg x in
      elim (Bool-cases v.0) [
        | inl valid ↦
            rw (valid, answer_mount)
              (Seat-set i y.sess srv.slist (subst (λ n. Seat i n srv.slist) (sym same) seat)).0
        | inr invalid ↦ rw (invalid, answer_mount) (Distinct-set-none i srv.slist seat.0)
      ]

  set_up-Distinct :
      (cliroot : List ℕ) (i : ℕ) (s : Session) (srv : Server)
      → Seat i s.sid srv.slist
      → Distinct (set_up os conf hdr cliroot i s srv).slist
  unfolding set_up
  set_up-Distinct cliroot i s srv seat =
      let io = asked (Call.malloc (length cliroot + 1)) srv.io in
      let s' : Session = record s {
        root = some (strlcpy cliroot (length cliroot + 1));
        last_contact = os.time io.calls;
        ipaddr = hdr.ipaddr;
        cli_fd = hdr.cli_fd;
      } in
      elim (Bool-cases (os.malloc srv.calls (length cliroot + 1))) [
        | inl got ↦ rw (got, set_up) (answer_mount-Distinct i s' _ (Seat-set i s' srv.slist seat))
        | inr fails ↦ rw (fails, set_up) seat.0
      ]

  -- A MOUNT keeps the IDs of the sessions distinct, on every branch: the ID of the session that it
  -- makes is drawn or recycled, and no other session has it.
  pub tnfs_mount-Distinct :
      (b : Buf) (srv : Server) → Distinct srv.slist → Distinct (tnfs_mount os conf hdr b srv).slist
  unfolding tnfs_mount
  tnfs_mount-Distinct b srv d =
      let m = make_room os hdr.ipaddr srv in
      let room = make_room-Distinct os hdr.ipaddr srv d in
      let a = tnfs_allocsession os m.0 m.1 in
      let alloc = tnfs_allocsession-Distinct os m.0 m.1 room.0 room.1 in
      elim (Bool-cases (not (last_byte b == 0))) [
        | inl unterminated ↦ rw (unterminated, tnfs_mount) d
        | inr ended ↦ elim (Option-cases a.slot) [
          | inl nothing ↦ rw (ended, nothing, tnfs_mount) alloc.0
          | inr ((i, s), e) ↦
              rw (ended, e, tnfs_mount)
                (set_up-Distinct _ i s a.server
                  (subst (λ o. Allocated os o a.server.slist) e alloc.1))
        ]
      ]

  pub tnfs_umount-Distinct :
      (s : Session) (i : ℕ) (srv : Server)
      → Distinct srv.slist
      → Distinct (tnfs_umount os conf hdr s i srv).slist
  unfolding tnfs_umount tnfs_freesession
  tnfs_umount-Distinct s i srv d = Distinct-set-none i srv.slist d

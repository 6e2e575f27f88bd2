-- ===== src/Sessions/Limit.antt =====
-- src/session.c: no client has more than 16 sessions, MAX_SESSIONS_PER_IP.
use tnfsd.Base.{
  ℕ, false, not, none, some, Option-cases, List, [], ◌∷◌, ◌+◌, ◌-◌, ◌≤◌, ◌==◌, ==_iff, ◌≡◌, ap, sym,
  subst, arith, if◌then◌else◌, inl, inr, Bool-cases, get_elem?, set, length,
}
use tnfsd.Os.{Os, Call}
use tnfsd.Tnfs.{last_byte, Config, Session, Header, Buf, Ctx, asked, fresh_session}
use tnfsd.Strl.{strlcpy}
use tnfsd.Path.{validate_dir}
use tnfsd.Send.{reply}
use tnfsd.Shape.{shape, shape-reply}
use tnfsd.Sessions.{Slots, Server, find_ip, tnfs_findsession_ipaddr, tnfs_freesession}
use tnfsd.Sessions.Mount.{fill_slot, tnfs_allocsession, make_room, answer_mount, set_up, tnfs_mount}
use tnfsd.Sessions.Table.{count_ip, tnfs_findsession_ipaddr-count}
use tnfsd.Sessions.Change.{
  set-set, count_ip-set-none, count_ip-set-some, count_ip-set_other, count_ip-freed,
}
use tnfsd.Sessions.Recycling.{count_ip-find_ip, find_ip-Recycles}

-- A client that is known by its address may have 16 sessions.
abbrev pub Limited : ℕ → Slots → Type 0
Limited ip slots = count_ip ip slots ≤ 16

-- How many sessions a client may have while room is made for one more of the client `owner`.
abbrev cap : ℕ → ℕ → ℕ
cap owner ip = if owner == ip then 15 else 16

module _ (os : Os) where
  make_room-fewer :
      (owner ip : ℕ) (srv : Server)
      → count_ip ip (make_room os owner srv).1.slist ≤ count_ip ip srv.slist
  unfolding make_room tnfs_freesession tnfs_findsession_ipaddr
  make_room-fewer owner ip srv = grind (arith, count_ip-find_ip os owner, count_ip-set-none)

  make_room-own :
      (owner : ℕ) (srv : Server)
      → Limited owner srv.slist
      → count_ip owner (make_room os owner srv).1.slist ≤ 15
  unfolding make_room tnfs_freesession tnfs_findsession_ipaddr
  make_room-own owner srv h =
      let now = os.time srv.calls in
      let io = asked Call.time srv.io in
      let r = find_ip os owner now 0 none 0 srv.slist io in
      let fewer = count_ip-find_ip os owner now owner 0 none 0 srv.slist io in
      elim (Option-cases r.found) [
        | inl nothing ↦
            rw (nothing, make_room)
              (omega (arith, tnfs_findsession_ipaddr-count os owner srv nothing))
        | inr (j, f) ↦ elim (find_ip-Recycles os owner now 0 none 0 j srv.slist io f) [
          | inl given ↦ absurd (ground arith)
          | inr (at_least, (s, e, own)) ↦
              let there : get_elem? r.slots j ≡ some (some s) =
                subst (λ n. get_elem? r.slots n ≡ some (some s)) (the_same j) e in
              rw (f, there, make_room)
                (omega (arith, count_ip-freed owner j s r.slots there own, fewer))
        ]
      ]
    where
      the_same : (j : ℕ) → j - 0 ≡ j
      the_same j = omega arith

  make_room-count :
      (owner ip : ℕ) (srv : Server)
      → Limited ip srv.slist
      → count_ip ip (make_room os owner srv).1.slist ≤ cap owner ip
  make_room-count owner ip srv h = elim (Bool-cases (owner == ip)) [
    | inl own ↦
        let same : ip ≡ owner = sym ((==_iff owner ip).0 own) in
        rw (own, cap)
          (subst (λ k. count_ip k (make_room os owner srv).1.slist ≤ 15) (sym same)
            (make_room-own owner srv (subst (λ k. Limited k srv.slist) same h)))
    | inr other ↦ rw (other, cap) (omega (arith, make_room-fewer owner ip srv))
  ]

  -- A session that is zeroed but for its ID counts for no client.
  count_ip-fresh :
      (sid ip i : ℕ) (slots : Slots)
      → (0 == ip) ≡ false
      → count_ip ip (set slots i (some (record fresh_session { sid = sid }))) ≤ count_ip ip slots
  unfolding fresh_session
  count_ip-fresh sid ip i slots h = omega (
    arith,
    count_ip-set_other ip i (record fresh_session { sid = sid }) slots h,
    count_ip-set-none ip i slots,
  )

  allocsession-count :
      (sid ip : ℕ) (srv : Server)
      → (0 == ip) ≡ false
      → count_ip ip (tnfs_allocsession os sid srv).server.slist ≤ count_ip ip srv.slist
  unfolding tnfs_allocsession fill_slot
  allocsession-count sid ip srv h =
      grind (arith, λ (n i : ℕ) (l : Slots). count_ip-fresh n ip i l h)

module _ (os : Os) (conf : Config) (hdr : Header) where
  answer_mount-count :
      (ip i : ℕ) (s : Session) (srv : Server)
      → count_ip ip (set srv.slist i none) ≤ cap s.ipaddr ip
      → Limited ip (answer_mount os conf hdr i s srv).slist
  unfolding answer_mount tnfs_freesession shape
  answer_mount-count ip i s srv h =
      let v = validate_dir os conf s srv.io in
      let x : Ctx = record { io = v.1; sess = s } in
      let msg : List ℕ = 0x03 ∷ 0x01 ∷ 0xE8 ∷ 0x03 ∷ [] in
      let y = reply os (record hdr { sid = s.sid }) 0 msg x in
      let same : y.sess.ipaddr ≡ s.ipaddr =
        ap (λ k. k.1) (shape-reply os (record hdr { sid = s.sid }) 0 msg x) in
      elim (Bool-cases v.0) [
        | inl valid ↦ elim (Bool-cases (s.ipaddr == ip)) [
          | inl own ↦
              let bound : count_ip ip (set srv.slist i none) ≤ 15 = rw (own, cap) at h in
              rw (valid, answer_mount)
                (omega (arith, count_ip-set-some ip i y.sess srv.slist, bound))
          | inr other ↦
              let differs : (y.sess.ipaddr == ip) ≡ false = rw same other in
              let bound : count_ip ip (set srv.slist i none) ≤ 16 = rw (other, cap) at h in
              rw (valid, answer_mount)
                (omega (arith, count_ip-set_other ip i y.sess srv.slist differs, bound))
        ]
        | inr invalid ↦ rw (invalid, answer_mount) (ground arith)
      ]

  set_up-count :
      (ip : ℕ) (cliroot : List ℕ) (i : ℕ) (s : Session) (srv : Server)
      → count_ip ip srv.slist ≤ cap hdr.ipaddr ip
      → Limited ip (set_up os conf hdr cliroot i s srv).slist
  unfolding set_up
  set_up-count ip cliroot i s srv h =
      let io = asked (Call.malloc (length cliroot + 1)) srv.io in
      let s' : Session = record s {
        root = some (strlcpy cliroot (length cliroot + 1));
        last_contact = os.time io.calls;
        ipaddr = hdr.ipaddr;
        cli_fd = hdr.cli_fd;
      } in
      let left = count_ip-set-none ip i srv.slist in
      elim (Bool-cases (os.malloc srv.calls (length cliroot + 1))) [
        | inl got ↦
            rw (got, set_up)
              (answer_mount-count ip i s'
                (record { slist = set srv.slist i (some s'); io = asked Call.time io })
                (rw (set-set i (some s') none srv.slist) (omega arith)))
        | inr fails ↦ rw (fails, set_up) (ground arith)
      ]

  -- A MOUNT leaves no client with more than 16 sessions, if it had no more before. The address 0
  -- is excepted: no client has it, but a session that could not be set up does.
  pub tnfs_mount-Limited :
      (b : Buf) (ip : ℕ) (srv : Server)
      → (0 == ip) ≡ false
      → Limited ip srv.slist
      → Limited ip (tnfs_mount os conf hdr b srv).slist
  unfolding tnfs_mount
  tnfs_mount-Limited b ip srv known h =
      let m = make_room os hdr.ipaddr srv in
      let room = make_room-count os hdr.ipaddr ip srv h in
      let a = tnfs_allocsession os m.0 m.1 in
      let kept = allocsession-count os m.0 ip m.1 known in
      elim (Bool-cases (not (last_byte b == 0))) [
        | inl unterminated ↦ rw (unterminated, tnfs_mount) h
        | inr ended ↦ elim (Option-cases a.slot) [
          | inl nothing ↦ rw (ended, nothing, tnfs_mount) (ground (arith, kept, room))
          | inr ((i, s), e) ↦
              rw (ended, e, tnfs_mount) (set_up-count ip _ i s a.server (omega (arith, kept, room)))
        ]
      ]

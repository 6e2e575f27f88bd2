-- ===== src/Sessions/Sound/Mounting.antt =====
-- src/session.c, `tnfs_mount`, `tnfs_umount` and `tnfs_expire_sessions`: the sessions stay sound, and
-- the connections are left alone.
use tnfsd.Base.{
  ℕ, true, not, none, some, Option-cases, List, [], ◌∷◌, ◌+◌, ◌==◌, ◌≡◌, refl, subst, arith, inl,
  inr, Bool-cases, length,
}
use tnfsd.Os.{Os, Call}
use tnfsd.Tnfs.{last_byte, Config, Session, Header, Buf, Io, Ctx, asked}
use tnfsd.Strl.{strlcpy}
use tnfsd.Path.{validate_dir}
use tnfsd.Send.{reply}
use tnfsd.Shape.{conns, Keeps-reply}
use tnfsd.Sessions.{
  Slots, Server, close_session, tnfs_freesession, expire_slots, tnfs_expire_sessions,
  tnfs_session_expired,
}
use tnfsd.Sessions.Mount.{
  tnfs_allocsession, make_room, answer_mount, set_up, tnfs_mount, tnfs_umount,
}
use tnfsd.Sessions.Change.{All-set}
use tnfsd.Sessions.Sound.{
  linked, IsSound, SlotSound, Sound, IsSound-Keeps, conns_of_Keeps, conns-close_session,
  conns-allocsession, conns-make_room, make_room-Sound, allocsession-Sound, Given,
}

module _ (os : Os) (conf : Config) (hdr : Header) where
  conns-reply :
      (h : Header) (status : ℕ) (msg : List ℕ) (x : Ctx)
      → conns (reply os h status msg x).io ≡ conns x.io
  conns-reply h status msg x =
      conns_of_Keeps x (reply os h status msg x) (Keeps-reply os h status msg x)

  conns-validate_dir : (s : Session) (io : Io) → conns (validate_dir os conf s io).1 ≡ conns io
  unfolding validate_dir
  conns-validate_dir s io = ground arith

  conns-answer_mount :
      (i : ℕ) (s : Session) (srv : Server)
      → conns (answer_mount os conf hdr i s srv).io ≡ conns srv.io
  unfolding answer_mount tnfs_freesession
  conns-answer_mount i s srv =
      grind (arith, conns-reply, conns-validate_dir, conns-close_session os)

  conns-set_up :
      (cliroot : List ℕ) (i : ℕ) (s : Session) (srv : Server)
      → conns (set_up os conf hdr cliroot i s srv).io ≡ conns srv.io
  unfolding set_up
  conns-set_up cliroot i s srv = grind (arith, conns-answer_mount)

  pub conns-tnfs_mount :
      (b : Buf) (srv : Server) → conns (tnfs_mount os conf hdr b srv).io ≡ conns srv.io
  unfolding tnfs_mount
  conns-tnfs_mount b srv = grind (arith, conns-set_up, conns-allocsession os, conns-make_room os)

  pub conns-tnfs_umount :
      (s : Session) (i : ℕ) (srv : Server)
      → conns (tnfs_umount os conf hdr s i srv).io ≡ conns srv.io
  unfolding tnfs_umount tnfs_freesession
  conns-tnfs_umount s i srv = grind (arith, conns-reply, conns-close_session os)

  pub tnfs_umount-Sound :
      (c : List ℕ) (s : Session) (i : ℕ) (srv : Server)
      → Sound c srv.slist
      → Sound c (tnfs_umount os conf hdr s i srv).slist
  unfolding tnfs_umount tnfs_freesession
  tnfs_umount-Sound c s i srv all = All-set (SlotSound c) i none srv.slist all tt

  answer_mount-Sound :
      (c : List ℕ) (i : ℕ) (s : Session) (srv : Server)
      → Sound c srv.slist
      → IsSound c s
      → Sound c (answer_mount os conf hdr i s srv).slist
  unfolding answer_mount tnfs_freesession
  answer_mount-Sound c i s srv all sound =
      let v = validate_dir os conf s srv.io in
      let x : Ctx = record { io = v.1; sess = s } in
      let h = record hdr { sid = s.sid } in
      let msg : List ℕ = 0x03 ∷ 0x01 ∷ 0xE8 ∷ 0x03 ∷ [] in
      let y = reply os h 0 msg x in
      elim (Bool-cases v.0) [
        | inl valid ↦
            rw (valid, answer_mount)
              (All-set (SlotSound c) i (some y.sess) srv.slist all
                (IsSound-Keeps c x y (Keeps-reply os h 0 msg x) sound))
        | inr invalid ↦ rw (invalid, answer_mount) (All-set (SlotSound c) i none srv.slist all tt)
      ]

  set_up-Sound :
      (c : List ℕ) (cliroot : List ℕ) (i : ℕ) (s : Session) (srv : Server)
      → linked c hdr.cli_fd ≡ true
      → Sound c srv.slist
      → IsSound c s
      → Sound c (set_up os conf hdr cliroot i s srv).slist
  unfolding set_up
  set_up-Sound c cliroot i s srv link all sound =
      let io = asked (Call.malloc (length cliroot + 1)) srv.io in
      let s' : Session = record s {
        root = some (strlcpy cliroot (length cliroot + 1));
        last_contact = os.time io.calls;
        ipaddr = hdr.ipaddr;
        cli_fd = hdr.cli_fd;
      } in
      let new : IsSound c s' = (sound.0, sound.1, sound.2, sound.3, link) in
      elim (Bool-cases (os.malloc srv.calls (length cliroot + 1))) [
        | inl got ↦
            rw (got, set_up)
              (answer_mount-Sound c i s' _ (All-set (SlotSound c) i (some s') srv.slist all new)
                new)
        | inr fails ↦ rw (fails, set_up) all
      ]

  -- A MOUNT on a connection that is there, or on none, leaves every session with tables of their
  -- sizes, a kept message that fits, and a connection that is there, or none.
  pub tnfs_mount-Sound :
      (c : List ℕ) (b : Buf) (srv : Server)
      → linked c hdr.cli_fd ≡ true
      → Sound c srv.slist
      → Sound c (tnfs_mount os conf hdr b srv).slist
  unfolding tnfs_mount
  tnfs_mount-Sound c b srv link all =
      let m = make_room os hdr.ipaddr srv in
      let a = tnfs_allocsession os m.0 m.1 in
      let alloc = allocsession-Sound os c m.0 m.1 (make_room-Sound os c hdr.ipaddr srv all) in
      elim (Bool-cases (not (last_byte b == 0))) [
        | inl unterminated ↦ rw (unterminated, tnfs_mount) all
        | inr ended ↦ elim (Option-cases a.slot) [
          | inl nothing ↦ rw (ended, nothing, tnfs_mount) alloc.0
          | inr ((i, s), e) ↦
              rw (ended, e, tnfs_mount)
                (set_up-Sound c _ i s a.server link alloc.0 (subst (Given os c) e alloc.1))
        ]
      ]

module _ (os : Os) where
  conns-expire_slots :
      (now : ℕ) (slots : Slots) (io : Io) → conns (expire_slots os now slots io).1 ≡ conns io
  unfolding expire_slots
  conns-expire_slots now [] io = refl
  conns-expire_slots now (none ∷ rest) io = conns-expire_slots now rest io
  conns-expire_slots now (some s ∷ rest) io =
      grind (arith, conns-expire_slots now rest, conns-close_session os)

  expire_slots-Sound :
      (c : List ℕ) (now : ℕ) (slots : Slots) (io : Io)
      → Sound c slots
      → Sound c (expire_slots os now slots io).0
  unfolding expire_slots
  expire_slots-Sound c now [] io all = tt
  expire_slots-Sound c now (none ∷ rest) io all = (tt, expire_slots-Sound c now rest io all.1)
  expire_slots-Sound c now (some s ∷ rest) io all = elim (Bool-cases (tnfs_session_expired s now)) [
    | inl gone ↦
        rw (gone, expire_slots) (tt, expire_slots-Sound c now rest (close_session os s io) all.1)
    | inr stays ↦ rw (stays, expire_slots) (all.0, expire_slots-Sound c now rest io all.1)
  ]

  pub conns-tnfs_expire_sessions :
      (srv : Server) → conns (tnfs_expire_sessions os srv).io ≡ conns srv.io
  unfolding tnfs_expire_sessions
  conns-tnfs_expire_sessions srv =
      conns-expire_slots (os.time srv.calls) srv.slist (asked Call.time srv.io)

  pub tnfs_expire_sessions-Sound :
      (c : List ℕ) (srv : Server) → Sound c srv.slist → Sound c (tnfs_expire_sessions os srv).slist
  unfolding tnfs_expire_sessions
  tnfs_expire_sessions-Sound c srv all =
      expire_slots-Sound c (os.time srv.calls) srv.slist (asked Call.time srv.io) all

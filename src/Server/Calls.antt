-- ===== src/Server/Calls.antt =====
-- src/datagram.c: what a request leaves true of all calls. A property of every call that changes no
-- file or directory is kept, if the command keeps it.
use tnfsd.Base.{
  All, ℕ, true, ◌&&◌, some, Option-cases, List, [], ◌==◌, ◌≡◌, arith, inl, inr, Bool-cases, get_or,
  take,
}
use tnfsd.Os.{Call, HoldsOfReads, Os, is_mutating}
use tnfsd.Tnfs.{Config, Session, Header, Buf, Io, Ctx}
use tnfsd.Auth.{is_cmd_allowed}
use tnfsd.Endian.{tnfs16uint}
use tnfsd.Send.{tnfs_badcommand, tnfs_notpermitted, tnfs_invalidsession, tnfs_resend}
use tnfsd.Send.Laws.{All-reply, All-send_nosess, All-transmit}
use tnfsd.File.Calls.{Harmless}
use tnfsd.Sessions.{Server, tnfs_findsession_sid}
use tnfsd.Sessions.Replies.{tnfs_umount-Answered, tnfs_mount-OneAtMost}
use tnfsd.Server.Tables.{CmdFunc, cmd_class, cmd_index, class_session, cmdfunc}
use tnfsd.Server.Decode.{Addr, read_header, data_of, dispatch, serve, tnfs_decode}

-- The session that a request is served for
abbrev pub touched : Os → Header → Server → Session → Session
touched os hdr srv s = record s { last_contact = os.time srv.calls; cli_fd = hdr.cli_fd }

module _ (P : Call → Type 0) (reads : HoldsOfReads P) (os : Os) (conf : Config) where
  -- The command of a request keeps the property, for a session.
  abbrev pub KeptFor : Header → Buf → Session → Type 0
  KeptFor hdr b s =
      (f : CmdFunc) (io : Io)
      → cmdfunc os conf hdr hdr.cmd ≡ some f
      → Harmless P (record { io = io; sess = s }) (f b (record { io = io; sess = s }))

  dispatch-Harmless :
      (hdr : Header) (b : Buf) (s : Session) (i : ℕ) (srv : Server)
      → KeptFor hdr b s
      → All P srv.calls
      → All P (dispatch os conf hdr b s i srv).calls
  unfolding dispatch tnfs_badcommand
  dispatch-Harmless hdr b s i srv kept q =
      let x : Ctx = record { io = srv.io; sess = s } in
      elim (Bool-cases (cmd_class hdr.cmd == class_session && cmd_index hdr.cmd == 1)) [
        | inl umount ↦
            rw (umount, dispatch) ((tnfs_umount-Answered P reads os conf hdr s i srv).1 q)
        | inr other ↦ elim (Option-cases (cmdfunc os conf hdr hdr.cmd)) [
          | inl none_such ↦ rw (other, none_such, dispatch) (All-reply os P reads hdr _ [] x q)
          | inr (f, e) ↦ rw (other, e, dispatch) (kept f srv.io e q)
        ]
      ]

  resend-Harmless : (ip port cli_fd : ℕ) (x : Ctx) → Harmless P x (tnfs_resend os ip port cli_fd x)
  unfolding tnfs_resend
  resend-Harmless ip port cli_fd x q =
      All-transmit os P reads cli_fd ip port (take (x.sess).lastmsgsz (x.sess).lastmsg) x.io q

  serve-Harmless :
      (a : Addr) (hdr : Header) (b : Buf) (s : Session) (i : ℕ) (srv : Server)
      → KeptFor hdr b (touched os hdr srv s)
      → All P srv.calls
      → All P (serve os conf a hdr b s i srv).calls
  unfolding serve is_mutating
  serve-Harmless a hdr b s i srv kept q =
      grind (arith, reads, resend-Harmless, dispatch-Harmless hdr b (touched os hdr srv s))

  -- A request keeps the property, if the command does that it asks for, where it is allowed.
  pub tnfs_decode-Harmless :
      (a : Addr) (cli_fd rxbytes : ℕ) (rxbuf : List ℕ) (srv : Server)
      → ((i : ℕ) (s : Session)
          → tnfs_findsession_sid (tnfs16uint rxbuf) srv.slist ≡ some (i, s)
          → is_cmd_allowed conf.read_only (get_or rxbuf 3 0) ≡ true
          → KeptFor
              (read_header a cli_fd rxbuf)
              (data_of rxbytes rxbuf)
              (touched os (read_header a cli_fd rxbuf) srv s))
      → All P srv.calls
      → All P (tnfs_decode os conf a cli_fd rxbytes rxbuf srv).calls
  unfolding tnfs_decode read_header tnfs_notpermitted tnfs_invalidsession
  tnfs_decode-Harmless a cli_fd rxbytes rxbuf srv kept q =
      let hdr = read_header a cli_fd rxbuf in
      let b = data_of rxbytes rxbuf in
      elim (Bool-cases (is_cmd_allowed conf.read_only (get_or rxbuf 3 0))) [
        | inr refused ↦ rw (refused, tnfs_decode) (All-send_nosess os P reads _ srv.io q)
        | inl allowed ↦ elim (Bool-cases (get_or rxbuf 3 0 == 0)) [
          | inl mount ↦
              rw (allowed, mount, tnfs_decode)
                ((tnfs_mount-OneAtMost P reads os conf hdr b srv).1 q)
          | inr other ↦ elim (Option-cases (tnfs_findsession_sid (tnfs16uint rxbuf) srv.slist)) [
            | inl unknown ↦
                rw (allowed, other, unknown, tnfs_decode) (All-send_nosess os P reads _ srv.io q)
            | inr ((i, s), e) ↦ elim (Bool-cases (s.ipaddr == a.ip)) [
              | inl same ↦
                  rw (allowed, other, e, same, tnfs_decode)
                    (serve-Harmless a hdr b s i srv (kept i s e allowed) q)
              | inr foreign ↦ rw (allowed, other, e, foreign, tnfs_decode) q
            ]
          ]
        ]
      ]

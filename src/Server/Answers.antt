-- ===== src/Server/Answers.antt =====
-- src/datagram.c: how many messages a request is answered with.
use tnfsd.Base.{
  ℕ, zero, suc, Bool, true, false, ◌&&◌, Option, none, some, Option-cases, List, [], ◌∷◌, ◌≤◌, ◌==◌,
  ◌≡◌, subst, refl, ap, arith, inl, inr, Bool-cases, &&-true, ==_iff, get_elem?, get_or,
}
use tnfsd.Os.{Reads, Reads-reads, Os, sends, ReadBound}
use tnfsd.Tnfs.{Config, Session, Header, Buf, Ctx}
use tnfsd.Send.Laws.{sends-reply, sends-send_nosess, calls-transmit}
use tnfsd.Send.{tnfs_badcommand, tnfs_notpermitted, tnfs_invalidsession, tnfs_resend}
use tnfsd.Auth.{is_cmd_allowed}
use tnfsd.Endian.{tnfs16uint}
use tnfsd.File.Replies.{
  Answered, tnfs_open_deprecated-Answered, tnfs_read-Answered, tnfs_write-Answered,
  tnfs_close-Answered, tnfs_stat-Answered, tnfs_lseek-Answered, tnfs_unlink-Answered,
  tnfs_rename-Answered, tnfs_open-Answered, tnfs_size-Answered, tnfs_free-Answered,
}
use tnfsd.Dir.Replies.{
  tnfs_opendir-Answered, tnfs_readdir-Answered, tnfs_closedir-Answered, tnfs_mkdir-Answered,
  tnfs_rmdir-Answered, tnfs_telldir-Answered, tnfs_seekdir-Answered, tnfs_opendirx-Answered,
  tnfs_readdirx-Answered,
}
use tnfsd.File.Names.{tnfs_chmod}
use tnfsd.Sessions.{Server, tnfs_findsession_sid}
use tnfsd.Sessions.Replies.{tnfs_umount-Answered, tnfs_mount-OneAtMost}
use tnfsd.Server.Decode.{Addr, read_header, data_of, dispatch, serve, tnfs_decode}
use tnfsd.Server.Tables.{
  CmdFunc, cmd_class, cmd_index, class_directory, class_file, class_device, dircmd, filecmd, devcmd,
  cmdfunc, class_session,
}

-- A predicate of every element and its index.
abbrev pub AllAt : (ℕ → CmdFunc → Type 0) → List CmdFunc → Type 0
AllAt P [] = Unit {0}
AllAt P (f ∷ fs) = P 0 f × AllAt (λ i. P (suc i)) fs

abbrev from_some : CmdFunc → Option CmdFunc → CmdFunc
from_some d none = d
from_some d (some f) = f

pub AllAt-get_elem? :
    (P : ℕ → CmdFunc → Type 0) (j : ℕ) (fs : List CmdFunc) (f : CmdFunc)
    → AllAt P fs
    → get_elem? fs j ≡ some f
    → P j f
AllAt-get_elem? P j [] f all e = absurd (ground arith)
AllAt-get_elem? P zero (g ∷ fs) f all e = subst (P 0) (ap (from_some g) e) all.0
AllAt-get_elem? P (suc j) (g ∷ fs) f all e = AllAt-get_elem? (λ i. P (suc i)) j fs f all.1 e

-- CHMOD
abbrev pub is_chmod : ℕ → Bool
is_chmod cmd = cmd_class cmd == 0x20 && cmd_index cmd == 7

module _ (os : Os) (conf : Config) (hdr : Header) where
  abbrev Answers : CmdFunc → Type 0
  Answers f = (b : Buf) (x : Ctx) → Answered x (f b x)

  dircmd-Answers : AllAt (λ i f. Answers f) (dircmd os conf hdr)
  dircmd-Answers = (
    tnfs_opendir-Answered os conf hdr,
    (
      tnfs_readdir-Answered os conf hdr,
      (
        tnfs_closedir-Answered os conf hdr,
        (
          tnfs_mkdir-Answered os conf hdr,
          (
            tnfs_rmdir-Answered os conf hdr,
            (
              tnfs_telldir-Answered os conf hdr,
              (
                tnfs_seekdir-Answered os conf hdr,
                (tnfs_opendirx-Answered os conf hdr, (tnfs_readdirx-Answered os conf hdr, tt)),
              ),
            ),
          ),
        ),
      ),
    ),
  )

  devcmd-Answers : AllAt (λ i f. Answers f) (devcmd os conf hdr)
  devcmd-Answers = (
    tnfs_size-Answered os conf hdr,
    (
      tnfs_free-Answered os conf hdr,
      (tnfs_size-Answered os conf hdr, (tnfs_free-Answered os conf hdr, tt)),
    ),
  )

  filecmd-Answers : ReadBound os → AllAt (λ i f. (i == 7) ≡ false → Answers f) (filecmd os conf hdr)
  filecmd-Answers bound = (
    λ _. tnfs_open_deprecated-Answered os conf hdr,
    (
      λ _ b x. tnfs_read-Answered os conf hdr b x bound,
      (
        λ _. tnfs_write-Answered os conf hdr,
        (
          λ _. tnfs_close-Answered os conf hdr,
          (
            λ _. tnfs_stat-Answered os conf hdr,
            (
              λ _. tnfs_lseek-Answered os conf hdr,
              (
                λ _. tnfs_unlink-Answered os conf hdr,
                (
                  λ e. absurd (ground arith),
                  (
                    λ _. tnfs_rename-Answered os conf hdr,
                    (λ _. tnfs_open-Answered os conf hdr, tt),
                  ),
                ),
              ),
            ),
          ),
        ),
      ),
    ),
  )

  -- Every command of the tables but CHMOD is answered by one message.
  pub cmdfunc-Answered :
      (cmd : ℕ) (f : CmdFunc) (b : Buf) (x : Ctx)
      → ReadBound os
      → is_chmod cmd ≡ false
      → cmdfunc os conf hdr cmd ≡ some f
      → Answered x (f b x)
  unfolding cmdfunc
  cmdfunc-Answered cmd f b x bound chmod e = elim (Bool-cases (cmd_class cmd == class_directory)) [
    | inl dir ↦
        AllAt-get_elem? (λ i g. Answers g) (cmd_index cmd) (dircmd os conf hdr) f dircmd-Answers
          (rw (dir, cmdfunc) at e) b x
    | inr not_dir ↦ elim (Bool-cases (cmd_class cmd == class_file)) [
      | inl file ↦
          AllAt-get_elem? (λ i g. (i == 7) ≡ false → Answers g) (cmd_index cmd)
            (filecmd os conf hdr) f (filecmd-Answers bound) (ground arith) (ground arith) b x
      | inr not_file ↦ elim (Bool-cases (cmd_class cmd == class_device)) [
        | inl dev ↦
            AllAt-get_elem? (λ i g. Answers g) (cmd_index cmd) (devcmd os conf hdr) f devcmd-Answers
              (ground arith) b x
        | inr not_dev ↦ absurd (ground arith)
      ]
    ]
  ]

  badcommand-Answered : (x : Ctx) → Answered x (tnfs_badcommand os hdr x)
  unfolding tnfs_badcommand
  badcommand-Answered x = grind (arith, sends-reply os hdr)

  -- Every command but CHMOD, if there is such a command or not, is answered by one message.
  dispatch-Answered :
      (b : Buf) (s : Session) (i : ℕ) (srv : Server)
      → ReadBound os
      → is_chmod hdr.cmd ≡ false
      → sends (dispatch os conf hdr b s i srv).calls ≡ suc (sends srv.calls)
  unfolding dispatch
  dispatch-Answered b s i srv bound chmod =
      elim (Bool-cases (cmd_class hdr.cmd == class_session && cmd_index hdr.cmd == 1)) [
        | inl umount ↦
            rw (umount, dispatch) (tnfs_umount-Answered Reads Reads-reads os conf hdr s i srv).0
        | inr other ↦ elim (Option-cases (cmdfunc os conf hdr hdr.cmd)) [
          | inl none_such ↦
              rw (other, none_such, dispatch)
                (badcommand-Answered (record { io = srv.io; sess = s }))
          | inr (f, e) ↦
              rw (other, e, dispatch)
                (cmdfunc-Answered hdr.cmd f b (record { io = srv.io; sess = s }) bound chmod e)
        ]
      ]

  cmdfunc_chmod :
      (cmd : ℕ) → is_chmod cmd ≡ true → cmdfunc os conf hdr cmd ≡ some (tnfs_chmod os conf hdr)
  unfolding cmdfunc
  cmdfunc_chmod cmd chmod =
      let parts = &&-true chmod in
      let class = (==_iff (cmd_class cmd) 0x20).0 parts.0 in
      let index = (==_iff (cmd_index cmd) 7).0 parts.1 in rw (class, index, cmdfunc) refl

  -- CHMOD is answered by nothing: the empty body of its function is all there is.
  dispatch_chmod :
      (b : Buf) (s : Session) (i : ℕ) (srv : Server)
      → is_chmod hdr.cmd ≡ true
      → sends (dispatch os conf hdr b s i srv).calls ≡ sends srv.calls
  unfolding dispatch tnfs_chmod
  dispatch_chmod b s i srv chmod =
      elim (Bool-cases (cmd_class hdr.cmd == class_session && cmd_index hdr.cmd == 1)) [
        | inl umount ↦ absurd (ground arith)
        | inr other ↦ rw (other, cmdfunc_chmod hdr.cmd chmod, dispatch) refl
      ]

module _ (os : Os) (conf : Config) where
  sends-tnfs_resend :
      (ip port cli_fd : ℕ) (x : Ctx)
      → sends (tnfs_resend os ip port cli_fd x).calls ≡ suc (sends x.calls)
  unfolding tnfs_resend sends
  sends-tnfs_resend ip port cli_fd x = grind (arith, calls-transmit os)

  serve-Answered :
      (a : Addr) (hdr : Header) (b : Buf) (s : Session) (i : ℕ) (srv : Server)
      → ReadBound os
      → is_chmod hdr.cmd ≡ false
      → sends (serve os conf a hdr b s i srv).calls ≡ suc (sends srv.calls)
  unfolding serve sends
  serve-Answered a hdr b s i srv bound chmod =
      grind (arith, sends-tnfs_resend, dispatch-Answered os conf hdr)

  -- If `read` gives no more bytes than it is asked for: a request for a session of the client
  -- that sends it, or for none, is answered by one message, whatever the command, its data and
  -- the state; but MOUNT and CHMOD.
  pub tnfs_decode-Answered :
      (a : Addr) (cli_fd rxbytes : ℕ) (rxbuf : List ℕ) (srv : Server)
      → ReadBound os
      → (get_or rxbuf 3 0 == 0) ≡ false
      → is_chmod (get_or rxbuf 3 0) ≡ false
      → ((i : ℕ) (s : Session)
          → tnfs_findsession_sid (tnfs16uint rxbuf) srv.slist ≡ some (i, s)
          → (s.ipaddr == a.ip) ≡ true)
      → sends (tnfs_decode os conf a cli_fd rxbytes rxbuf srv).calls ≡ suc (sends srv.calls)
  unfolding tnfs_decode read_header tnfs_notpermitted tnfs_invalidsession
  tnfs_decode-Answered a cli_fd rxbytes rxbuf srv bound mount chmod client =
      let hdr = read_header a cli_fd rxbuf in
      elim (Bool-cases (is_cmd_allowed conf.read_only (get_or rxbuf 3 0))) [
        | inr refused ↦ rw (refused, tnfs_decode) (sends-send_nosess os _ srv.io)
        | inl allowed ↦ elim (Option-cases (tnfs_findsession_sid (tnfs16uint rxbuf) srv.slist)) [
          | inl unknown ↦ rw (allowed, mount, unknown, tnfs_decode) (sends-send_nosess os _ srv.io)
          | inr ((i, s), e) ↦
              rw (allowed, mount, e, client i s e, tnfs_decode)
                (serve-Answered a hdr (data_of rxbytes rxbuf) s i srv bound chmod)
        ]
      ]

  serve-AtMost :
      (a : Addr) (hdr : Header) (b : Buf) (s : Session) (i : ℕ) (srv : Server)
      → ReadBound os
      → sends (serve os conf a hdr b s i srv).calls ≤ suc (sends srv.calls)
  unfolding serve sends
  serve-AtMost a hdr b s i srv bound = elim (Bool-cases (is_chmod hdr.cmd)) [
    | inl chmod ↦ grind (arith, sends-tnfs_resend, dispatch_chmod os conf hdr)
    | inr answered ↦ omega (arith, serve-Answered a hdr b s i srv bound answered)
  ]

  -- If `read` gives no more bytes than it is asked for: no request makes the server send more
  -- than one message, so it does not amplify.
  pub tnfs_decode-AtMost :
      (a : Addr) (cli_fd rxbytes : ℕ) (rxbuf : List ℕ) (srv : Server)
      → ReadBound os
      → sends (tnfs_decode os conf a cli_fd rxbytes rxbuf srv).calls ≤ suc (sends srv.calls)
  unfolding tnfs_decode read_header tnfs_notpermitted tnfs_invalidsession
  tnfs_decode-AtMost a cli_fd rxbytes rxbuf srv bound =
      let hdr = read_header a cli_fd rxbuf in
      let b = data_of rxbytes rxbuf in
      elim (Bool-cases (is_cmd_allowed conf.read_only (get_or rxbuf 3 0))) [
        | inr refused ↦
            rw (refused, tnfs_decode)
              (omega (arith, sends-send_nosess os (record hdr { status = 1 }) srv.io))
        | inl allowed ↦ elim (Bool-cases (get_or rxbuf 3 0 == 0)) [
          | inl mount ↦
              rw (allowed, mount, tnfs_decode)
                (tnfs_mount-OneAtMost Reads Reads-reads os conf hdr b srv).0
          | inr other ↦ elim (Option-cases (tnfs_findsession_sid (tnfs16uint rxbuf) srv.slist)) [
            | inl unknown ↦
                rw (allowed, other, unknown, tnfs_decode)
                  (omega (arith, sends-send_nosess os (record hdr { status = 0xFF }) srv.io))
            | inr ((i, s), e) ↦ elim (Bool-cases (s.ipaddr == a.ip)) [
              | inl same ↦
                  rw (allowed, other, e, same, tnfs_decode) (serve-AtMost a hdr b s i srv bound)
              | inr foreign ↦ rw (allowed, other, e, foreign, tnfs_decode) (omega arith)
            ]
          ]
        ]
      ]

-- ===== src/Server/Sound.antt =====
-- src/datagram.c, `tnfs_decode`: what a request keeps of the table of sessions. The IDs stay distinct,
-- no client has more than 16 sessions, and every session is sound.
use tnfsd.Base.{
  suc, ℕ, true, ◌&&◌, some, Option-cases, List, ◌==◌, ◌≡◌, refl, ap, sym, subst, arith, inl, inr,
  Bool-cases, set, get_elem?, get_or,
}
use tnfsd.Os.{Os, Call}
use tnfsd.Tnfs.{Config, Session, Header, Buf, Io, Ctx, asked}
use tnfsd.Auth.{is_cmd_allowed}
use tnfsd.Endian.{tnfs16uint}
use tnfsd.Send.{tnfs_badcommand, tnfs_notpermitted, tnfs_invalidsession, tnfs_resend}
use tnfsd.Shape.{conns, shape, Fits, Keeps, shape-tnfs_resend, conns-send_nosess}
use tnfsd.Sessions.{Slots, Server, tnfs_findsession_sid, tnfs_freesession}
use tnfsd.Sessions.Mount.{tnfs_mount, tnfs_umount}
use tnfsd.Sessions.Change.{
  All-set, All-get_slot, count_ip-replaced, count_ip-set-none, get_elem?-set_slot,
  tnfs_findsession_sid_lem,
}
use tnfsd.Sessions.Limit.{Limited, tnfs_mount-Limited}
use tnfsd.Sessions.Sound.{linked, IsSound, SlotSound, Sound, IsSound-Keeps, conns_of_Keeps}
use tnfsd.Sessions.Sound.Mounting.{
  conns-tnfs_mount, conns-tnfs_umount, tnfs_mount-Sound, tnfs_umount-Sound,
}
use tnfsd.Sessions.Ids.{Distinct, Distinct-set-some, Free-of_Distinct}
use tnfsd.Sessions.Ids.Mounting.{tnfs_mount-Distinct, tnfs_umount-Distinct}
use tnfsd.Server.Tables.{cmd_class, cmd_index, class_session, cmdfunc}
use tnfsd.Server.Decode.{Addr, read_header, data_of, dispatch, serve, tnfs_decode, put_back}
use tnfsd.Server.Keeps.{cmdfunc-Keeps, badcommand-Keeps}

-- The state between two requests.
unfoldable pub IsGood : Server → Type 0
IsGood srv =
    Distinct srv.slist × ((ip : ℕ) → Limited (suc ip) srv.slist) × Sound (conns srv.io) srv.slist

-- The session `s` in the slot `i` is replaced by one with its shape.
replaced :
    (c : List ℕ) (i : ℕ) (s t : Session) (slots : Slots)
    → get_elem? slots i ≡ some (some s)
    → (t.sid ≡ s.sid) × (t.ipaddr ≡ s.ipaddr)
    → IsSound c t
    → Distinct slots × ((ip : ℕ) → Limited (suc ip) slots) × Sound c slots
    → Distinct (set slots i (some t))
      × ((ip : ℕ) → Limited (suc ip) (set slots i (some t)))
      × Sound c (set slots i (some t))
replaced c i s t slots e same sound good = (
  Distinct-set-some i t slots good.0 (rw same.0 (Free-of_Distinct i s slots good.0 e)),
  λ ip. rw (count_ip-replaced (suc ip) i s t slots e same.1) (good.1 ip),
  All-set (SlotSound c) i (some t) slots good.2 sound,
)

module _ (os : Os) (conf : Config) (hdr : Header) where
  sid_of_Keeps :
      (x y : Ctx) → Keeps x y → (y.sess.sid ≡ x.sess.sid) × (y.sess.ipaddr ≡ x.sess.ipaddr)
  unfolding shape
  sid_of_Keeps x y k = (ap (λ p. p.0) k.0, ap (λ p. p.1) k.0)

  -- The session in the slot is handed to something that keeps its shape.
  pub put_back-IsGood :
      (i : ℕ) (s : Session) (srv : Server) (y : Ctx)
      → get_elem? srv.slist i ≡ some (some s)
      → IsGood srv
      → Keeps (record { io = srv.io; sess = s }) y
      → IsGood (put_back srv i y)
  unfolding IsGood
  put_back-IsGood i s srv y e good k =
      let x : Ctx = record { io = srv.io; sess = s } in
      let c = conns srv.io in
      let sound =
        IsSound-Keeps c x y k (All-get_slot (SlotSound c) i (some s) srv.slist good.2 e) in
      let all = replaced c i s y.sess srv.slist e (sid_of_Keeps x y k) sound good in
      (
        all.0,
        all.1,
        subst (λ d. Sound d (set srv.slist i (some y.sess))) (sym (conns_of_Keeps x y k)) all.2,
      )

  umount-Limited :
      (s : Session) (i : ℕ) (srv : Server) (ip : ℕ)
      → Limited ip srv.slist
      → Limited ip (tnfs_umount os conf hdr s i srv).slist
  unfolding tnfs_umount tnfs_freesession
  umount-Limited s i srv ip h = omega (arith, count_ip-set-none ip i srv.slist, h)

  umount-IsGood :
      (s : Session) (i : ℕ) (srv : Server) → IsGood srv → IsGood (tnfs_umount os conf hdr s i srv)
  unfolding IsGood
  umount-IsGood s i srv good = (
    tnfs_umount-Distinct os conf hdr s i srv good.0,
    λ ip. umount-Limited s i srv (suc ip) (good.1 ip),
    rw (conns-tnfs_umount os conf hdr s i srv)
        (tnfs_umount-Sound os conf hdr (conns srv.io) s i srv good.2),
  )

  pub dispatch-IsGood :
      (b : Buf) (s : Session) (i : ℕ) (srv : Server)
      → get_elem? srv.slist i ≡ some (some s)
      → IsGood srv
      → IsGood (dispatch os conf hdr b s i srv)
  unfolding dispatch
  dispatch-IsGood b s i srv e good =
      let x : Ctx = record { io = srv.io; sess = s } in
      elim (Bool-cases (cmd_class hdr.cmd == class_session && cmd_index hdr.cmd == 1)) [
        | inl umount ↦ rw (umount, dispatch) (umount-IsGood s i srv good)
        | inr other ↦ elim (Option-cases (cmdfunc os conf hdr hdr.cmd)) [
          | inl none_such ↦
              rw (other, none_such, dispatch)
                (put_back-IsGood i s srv (tnfs_badcommand os hdr x) e good
                  (badcommand-Keeps os conf hdr x))
          | inr (f, is) ↦
              rw (other, is, dispatch)
                (put_back-IsGood i s srv (f b x) e good
                  (cmdfunc-Keeps os conf hdr hdr.cmd f b x is))
        ]
      ]

  pub mount-IsGood :
      (b : Buf) (srv : Server)
      → linked (conns srv.io) hdr.cli_fd ≡ true
      → IsGood srv
      → IsGood (tnfs_mount os conf hdr b srv)
  unfolding IsGood
  mount-IsGood b srv link good = (
    tnfs_mount-Distinct os conf hdr b srv good.0,
    λ ip. tnfs_mount-Limited os conf hdr b (suc ip) srv (ground arith) (good.1 ip),
    rw (conns-tnfs_mount os conf hdr b srv)
        (tnfs_mount-Sound os conf hdr (conns srv.io) b srv link good.2),
  )

module _ (os : Os) (conf : Config) where
  Fits-tnfs_resend :
      (ip port fd : ℕ) (x : Ctx) → Fits x.sess → Fits (tnfs_resend os ip port fd x).sess
  unfolding tnfs_resend
  Fits-tnfs_resend ip port fd x f = f

  resend-Keeps : (ip port fd : ℕ) (x : Ctx) → Keeps x (tnfs_resend os ip port fd x)
  resend-Keeps ip port fd x = (shape-tnfs_resend os ip port fd x, Fits-tnfs_resend ip port fd x)

  -- The session is touched: it gets the time and the connection.
  touched-IsGood :
      (fd now i : ℕ) (s : Session) (io : Io) (srv : Server)
      → get_elem? srv.slist i ≡ some (some s)
      → linked (conns srv.io) fd ≡ true
      → conns io ≡ conns srv.io
      → IsGood srv
      → IsGood (record {
        slist = set srv.slist i (some (record s { last_contact = now; cli_fd = fd }));
        io = io;
      })
  unfolding IsGood
  touched-IsGood fd now i s io srv e link same good =
      let c = conns srv.io in
      let t = record s { last_contact = now; cli_fd = fd } in
      let old = All-get_slot (SlotSound c) i (some s) srv.slist good.2 e in
      let all = replaced c i s t srv.slist e (refl, refl) (old.0, old.1, old.2, old.3, link) good in
      (all.0, all.1, subst (λ d. Sound d (set srv.slist i (some t))) (sym same) all.2)

  serve-IsGood :
      (a : Addr) (hdr : Header) (b : Buf) (s : Session) (i : ℕ) (srv : Server)
      → get_elem? srv.slist i ≡ some (some s)
      → linked (conns srv.io) hdr.cli_fd ≡ true
      → IsGood srv
      → IsGood (serve os conf a hdr b s i srv)
  unfolding serve
  serve-IsGood a hdr b s i srv e link good =
      let t : Session = record s { last_contact = os.time srv.calls; cli_fd = hdr.cli_fd } in
      let io = asked Call.time srv.io in
      let srv' : Server = record { slist = set srv.slist i (some t); io = io } in
      let good' = touched-IsGood hdr.cli_fd (os.time srv.calls) i s io srv e link refl good in
      let here = get_elem?-set_slot i (some s) (some t) srv.slist e in
      let x : Ctx = record { io = io; sess = t } in
      elim (Bool-cases (hdr.seqno == s.lastseqno)) [
        | inl again ↦
            rw (again, serve)
              (put_back-IsGood os conf hdr i t srv' (tnfs_resend os a.ip a.port hdr.cli_fd x) here
                good' (resend-Keeps a.ip a.port hdr.cli_fd x))
        | inr new ↦ rw (new, serve) (dispatch-IsGood os conf hdr b t i srv' here good')
      ]

  nosess-IsGood :
      (slots : Slots) (io io' : Io)
      → conns io' ≡ conns io
      → IsGood (record { slist = slots; io = io })
      → IsGood (record { slist = slots; io = io' })
  unfolding IsGood
  nosess-IsGood slots io io' same good =
      (good.0, good.1, subst (λ d. Sound d slots) (sym same) good.2)

  -- Whatever arrives, on a connection that is there or on none: if the IDs of the sessions were
  -- distinct, no client but the address 0 had more than 16, and every session had tables of their
  -- sizes, a kept message that fits and a connection that is there or none, then so it is afterwards.
  pub tnfs_decode-IsGood :
      (a : Addr) (cli_fd rxbytes : ℕ) (rxbuf : List ℕ) (srv : Server)
      → linked (conns srv.io) cli_fd ≡ true
      → IsGood srv
      → IsGood (tnfs_decode os conf a cli_fd rxbytes rxbuf srv)
  unfolding tnfs_decode read_header tnfs_notpermitted tnfs_invalidsession
  tnfs_decode-IsGood a cli_fd rxbytes rxbuf srv link good =
      let hdr = read_header a cli_fd rxbuf in
      let b = data_of rxbytes rxbuf in
      elim (Bool-cases (is_cmd_allowed conf.read_only (get_or rxbuf 3 0))) [
        | inr refused ↦
            rw (refused, tnfs_decode)
              (nosess-IsGood srv.slist srv.io _ (conns-send_nosess os _ srv.io) good)
        | inl allowed ↦ elim (Bool-cases (get_or rxbuf 3 0 == 0)) [
          | inl mount ↦ rw (allowed, mount, tnfs_decode) (mount-IsGood os conf hdr b srv link good)
          | inr other ↦ elim (Option-cases (tnfs_findsession_sid (tnfs16uint rxbuf) srv.slist)) [
            | inl unknown ↦
                rw (allowed, other, unknown, tnfs_decode)
                  (nosess-IsGood srv.slist srv.io _ (conns-send_nosess os _ srv.io) good)
            | inr ((i, s), e) ↦ elim (Bool-cases (s.ipaddr == a.ip)) [
              | inl same ↦
                  rw (allowed, other, e, same, tnfs_decode)
                    (serve-IsGood a hdr b s i srv
                      (tnfs_findsession_sid_lem (tnfs16uint rxbuf) i s srv.slist e).0 link good)
              | inr foreign ↦ rw (allowed, other, e, foreign, tnfs_decode) good
            ]
          ]
        ]
      ]

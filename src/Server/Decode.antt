-- ===== src/Server/Decode.antt =====
-- src/datagram.c: `tnfs_decode`.
use tnfsd.Base.{ℕ, not, ◌&&◌, none, some, List, ◌-◌, ◌==◌, if◌then◌else◌, get_or, drop, set}
use tnfsd.Os.{Os, Call}
use tnfsd.Tnfs.{Config, Session, Header, Buf, Ctx, asked, tnfs_headersz}
use tnfsd.Endian.{tnfs16uint}
use tnfsd.Auth.{is_cmd_allowed}
use tnfsd.Send.{tnfs_invalidsession, tnfs_badcommand, tnfs_notpermitted, tnfs_resend}
use tnfsd.Sessions.{Server, tnfs_findsession_sid}
use tnfsd.Sessions.Mount.{tnfs_mount, tnfs_umount}
use tnfsd.Server.Tables.{cmd_class, cmd_index, class_session, cmdfunc}

-- A client's address.
pub record Addr : Type 0 where
  pub ip : ℕ
  pub port : ℕ

-- The header of a request.
unfoldable pub read_header : Addr → ℕ → List ℕ → Header
read_header a cli_fd rxbuf = record {
  sid = tnfs16uint rxbuf;
  seqno = get_or rxbuf 2 0;
  cmd = get_or rxbuf 3 0;
  status = 0;
  ipaddr = a.ip;
  port = a.port;
  cli_fd = cli_fd;
}

-- Its data. The byte in front of the end is read at `rxbytes - 1`, which is in the header if there is
-- no data.
unfoldable pub data_of : ℕ → List ℕ → Buf
data_of rxbytes rxbuf = record {
  bytes = drop tnfs_headersz rxbuf;
  bufsz = rxbytes - tnfs_headersz;
  before = get_or rxbuf (rxbytes - 1) 0;
}

-- What was done to the session `i` is put back into its slot.
abbrev pub put_back : Server → ℕ → Ctx → Server
put_back srv i x = record srv { slist = set srv.slist i (some x.sess); io = x.io }

module _ (os : Os) (conf : Config) where
  -- The switch on the command's class.
  unfoldable pub dispatch : Header → Buf → Session → ℕ → Server → Server
  dispatch hdr b s i srv =
      let x : Ctx = record { io = srv.io; sess = s } in
      if cmd_class hdr.cmd == class_session && cmd_index hdr.cmd == 1
      then tnfs_umount os conf hdr s i srv
      else put_back srv i
          (elim (cmdfunc os conf hdr hdr.cmd) [ none ↦ tnfs_badcommand os hdr x | some f ↦ f b x ])

  -- A request for the session `s` in the slot `i`, its client already checked.
  unfoldable pub serve : Addr → Header → Buf → Session → ℕ → Server → Server
  serve a hdr b s i srv =
      let touched = record s { last_contact = os.time srv.calls; cli_fd = hdr.cli_fd } in
      let srv' : Server = record {
        slist = set srv.slist i (some touched);
        io = asked Call.time srv.io;
      } in
      if hdr.seqno == s.lastseqno
      then put_back srv' i
          (tnfs_resend os a.ip a.port hdr.cli_fd (record { io = srv'.io; sess = touched }))
      else dispatch hdr b touched i srv'

  unfoldable pub tnfs_decode : Addr → ℕ → ℕ → List ℕ → Server → Server
  tnfs_decode a cli_fd rxbytes rxbuf srv =
      let hdr = read_header a cli_fd rxbuf in
      let b = data_of rxbytes rxbuf in
      if not (is_cmd_allowed conf.read_only hdr.cmd)
      then record srv { io = tnfs_notpermitted os hdr srv.io }
      else if hdr.cmd == 0
      then tnfs_mount os conf hdr b srv
      else elim (tnfs_findsession_sid hdr.sid srv.slist) [
        | none ↦ record srv { io = tnfs_invalidsession os hdr srv.io }
        | some (i, s) ↦ if s.ipaddr == a.ip then serve a hdr b s i srv else srv
      ]

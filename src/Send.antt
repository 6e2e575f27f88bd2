-- ===== src/Send.antt =====
-- src/datagram.c, the sending half: `tnfs_send`, `tnfs_resend`, the replies that carry no session,
-- and the mark on a connection whose client has stopped reading.
pub mod Laws
use tnfsd.Base.{ℕ, Bool, List, [], ◌∷◌, ◌++◌, ◌+◌, ◌==◌, ltb, if◌then◌else◌, length, drop, take}
use tnfsd.Os.{Os, Call, Result, ok, err}
use tnfsd.Tnfs.{Session, Header, TcpConnection, Io, Ctx, did, maxmsgsz, tnfs_headersz}
use tnfsd.Endian.{uint16tnfs}
use tnfsd.Errortable.{tnfs_ebadsession, tnfs_enosys, tnfs_eperm}

-- the loop of `tnfs_mark_tcp_dead`
unfoldable pub mark_dead : ℕ → List TcpConnection → List TcpConnection
mark_dead cli_fd [] = []
mark_dead cli_fd (t ∷ ts) =
    if t.cli_fd == cli_fd then record t { last_contact = 0 } ∷ ts else t ∷ mark_dead cli_fd ts

unfoldable pub tnfs_mark_tcp_dead : ℕ → Io → Io
unfolding mark_dead
tnfs_mark_tcp_dead cli_fd io =
    if cli_fd == 0 then io else record io { tcpsocks = mark_dead cli_fd io.tcpsocks }

-- A send that failed or was cut short marks the connection.
unfoldable pub check_sent : Result ℕ → ℕ → ℕ → Io → Io
check_sent (err e) size cli_fd io = tnfs_mark_tcp_dead cli_fd io
check_sent (ok n) size cli_fd io = if ltb n size then tnfs_mark_tcp_dead cli_fd io else io

-- The message itself: the header, the status and the payload.
unfoldable pub packet : ℕ → Header → List ℕ → List ℕ
packet sid hdr msg = uint16tnfs sid ++ (hdr.seqno ∷ hdr.cmd ∷ hdr.status ∷ msg)

-- `sendto` the client's address without a connection, `send` on a connection
abbrev pub wire_call : ℕ → ℕ → ℕ → List ℕ → Call
wire_call cli_fd ip port bytes =
    if cli_fd == 0 then Call.sendto ip port bytes else Call.send cli_fd bytes

module _ (os : Os) where
  abbrev pub wire_result : List Call → ℕ → ℕ → ℕ → List ℕ → Result ℕ
  wire_result calls cli_fd ip port bytes =
      if cli_fd == 0 then os.sendto calls ip port bytes else os.send calls cli_fd bytes

  unfoldable pub transmit : ℕ → ℕ → ℕ → List ℕ → Io → Io
  unfolding check_sent
  transmit cli_fd ip port bytes io =
      let r = wire_result io.calls cli_fd ip port bytes in
      check_sent r (length bytes) cli_fd (did (wire_call cli_fd ip port bytes) r io)

  -- What is sent stays in the session, for a client that asks again.
  unfoldable pub tnfs_send : Header → List ℕ → Ctx → Ctx
  unfolding packet
  tnfs_send hdr msg x =
      if ltb maxmsgsz (tnfs_headersz + 1 + length msg)
      then x
      else (let bytes = packet hdr.sid hdr msg in
          record x {
            io = transmit hdr.cli_fd hdr.ipaddr hdr.port bytes x.io;
            sess = record (x.sess) {
              lastmsg = bytes ++ drop (length bytes) (x.sess).lastmsg;
              lastmsgsz = tnfs_headersz + 1 + length msg;
              lastseqno = hdr.seqno;
            };
          })

  -- `tnfs_send` with no session, which sends no payload and the session ID 0
  unfoldable pub send_nosess : Header → Io → Io
  unfolding packet
  send_nosess hdr io = transmit hdr.cli_fd hdr.ipaddr hdr.port (packet 0 hdr []) io

  -- `hdr->status = status; tnfs_send (s, hdr, msg, msgsz);`
  unfoldable pub reply : Header → ℕ → List ℕ → Ctx → Ctx
  reply hdr status msg x = tnfs_send (record hdr { status = status }) msg x

  unfoldable pub tnfs_invalidsession : Header → Io → Io
  tnfs_invalidsession hdr io = send_nosess (record hdr { status = tnfs_ebadsession }) io

  unfoldable pub tnfs_badcommand : Header → Ctx → Ctx
  unfolding reply
  tnfs_badcommand hdr x = reply hdr tnfs_enosys [] x

  unfoldable pub tnfs_notpermitted : Header → Io → Io
  tnfs_notpermitted hdr io = send_nosess (record hdr { status = tnfs_eperm }) io

  -- The last message once more, to the address that the request came from.
  unfoldable pub tnfs_resend : ℕ → ℕ → ℕ → Ctx → Ctx
  tnfs_resend ip port cli_fd x = record x {
    io = transmit cli_fd ip port (take (x.sess).lastmsgsz (x.sess).lastmsg) x.io;
  }

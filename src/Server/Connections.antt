-- ===== src/Server/Connections.antt =====
-- src/datagram.c: connections are accepted, read from and closed, and datagrams are received. A
-- pointer to a connection is its index in `tcpsocks`.
use tnfsd.Base.{
  ℕ, zero, suc, false, not, ◌&&◌, Option, none, some, List, [], ◌∷◌, ◌++◌, ◌+◌, ◌*◌, ◌==◌, ltb, leb,
  if◌then◌else◌, length, get_or, drop,
}
use tnfsd.Os.{
  Os, Call, OpenFlags, SockOpt, Accepted, Datagram, Result, ok, err, Errno, eagain, enomem, emfile,
  enfile, eintr, econnaborted, enobufs, rdonly,
}
use tnfsd.Tnfs.{Config, TcpConnection, Io, did, asked, maxmsgsz, conn_timeout, tnfs_headersz}
use tnfsd.Endian.{uint16tnfs}
use tnfsd.Sessions.{Server, tnfs_reset_cli_fd_in_sessions}
use tnfsd.Server.Decode.{tnfs_decode}
use tnfsd.Server.Event.{tnfs_event_register, tnfs_event_unregister}

unfoldable pub max_tcp_conn : ℕ
max_tcp_conn = 4096

abbrev pub free_conn : TcpConnection
free_conn = record { cli_addr = 0; cli_port = 0; cli_fd = 0; last_contact = 0 }

abbrev pub conn_at : ℕ → List TcpConnection → TcpConnection
conn_at i ts = get_or ts i free_conn

-- `tcp_conn_list[i]` is changed in place.
unfoldable pub modify :
    ℕ → (TcpConnection → TcpConnection) → List TcpConnection → List TcpConnection
modify i f [] = []
modify zero f (t ∷ ts) = f t ∷ ts
modify (suc i) f (t ∷ ts) = t ∷ modify i f ts

-- The descriptors of `tnfs_sockinit`.
pub record Listeners : Type 0 where
  pub sockfd : ℕ
  pub tcplistenfd : ℕ

-- The server, and the descriptor that is held back.
pub record Acceptor : Type 0 where
  pub server : Server
  pub accept_reserve_fd : Option ℕ

abbrev pub on_io : (Io → Io) → Server → Server
on_io f srv = record srv { io = f srv.io }

-- What `accept` may fail with: a client that went away, too few descriptors or too little memory, or
-- something else.
pub data Failure : Type 0 where
  transient exhausted unexpected : Failure

unfoldable pub failure : Errno → Failure
failure eintr = transient
failure eagain = transient
failure econnaborted = transient
failure emfile = exhausted
failure enfile = exhausted
failure enobufs = exhausted
failure enomem = exhausted
failure _ = unexpected

-- The connection in the first slot that is free, if there is one.
unfoldable pub place_conn : TcpConnection → List TcpConnection → Option (List TcpConnection)
place_conn c [] = none
place_conn c (t ∷ ts) =
    let rest = place_conn c ts in
    if t.cli_fd == 0 then some (c ∷ ts) else elim rest [ none ↦ none | some us ↦ some (t ∷ us) ]

-- What an array on the stack holds after the bytes are received into it.
abbrev pub received_into : List ℕ → List ℕ → List ℕ
received_into old bytes = bytes ++ drop (length bytes) old

module _ (os : Os) where
  abbrev pub sets : ℕ → SockOpt → ℕ → Io → Io
  sets fd o v io = did (Call.setsockopt fd o v) (os.setsockopt io.calls fd o v) io

  abbrev pub closes : ℕ → Io → Io
  closes fd io = did (Call.close_file fd) (os.close_file io.calls fd) io

  -- A failure is only logged.
  unfoldable pub apply_keepalive_options : ℕ → Io → Io
  apply_keepalive_options fd io = sets fd SockOpt.sndtimeo 30 (
      sets fd SockOpt.user_timeout ((30 + 1 * 60) * 1000) (
        sets fd SockOpt.keepcnt 60 (
          sets fd SockOpt.keepintvl 1
            (sets fd SockOpt.keepidle 30 (sets fd SockOpt.keepalive 1 io)))))

  abbrev closes_accepted : Result Accepted → Io → Io
  closes_accepted (ok c) io = closes c.fd io
  closes_accepted (err e) io = io

  abbrev pub descriptor : Result ℕ → Option ℕ
  descriptor (ok fd) = some fd
  descriptor (err e) = none

  abbrev dev_null : List ℕ
  dev_null = b'/' ∷ b'd' ∷ b'e' ∷ b'v' ∷ b'/' ∷ b'n' ∷ b'u' ∷ b'l' ∷ b'l' ∷ []

  abbrev pub opens_dev_null : Io → Result ℕ × Io
  opens_dev_null io =
      let flags : OpenFlags = record {
        access = rdonly;
        append = false;
        creat = false;
        excl = false;
        trunc = false;
      } in
      let r = os.open_file io.calls dev_null flags 0 in
      (r, did (Call.open_file dev_null flags 0) r io)

  -- `tcp_accept_drain_reserve`, with a descriptor held back
  unfoldable pub drained : ℕ → ℕ → Io → Option ℕ × Io
  drained tcplistenfd reserve io =
      let io1 = closes reserve io in
      let r = os.accept io1.calls tcplistenfd in
      let io2 = closes_accepted r (did (Call.accept tcplistenfd) r io1) in
      let (again, io3) = opens_dev_null io2 in (descriptor again, io3)

  unfoldable pub tcp_accept_drain_reserve : ℕ → Acceptor → Acceptor
  unfolding drained
  tcp_accept_drain_reserve tcplistenfd p = elim p.accept_reserve_fd [
    | none ↦ p
    | some reserve ↦
        let (again, io) = drained tcplistenfd reserve (p.server).io in
        record { server = record (p.server) { io = io }; accept_reserve_fd = again }
  ]

  -- The time is asked for; the rest of `tcp_accept_warn` is for the log.
  abbrev pub tcp_accept_warn : Acceptor → Acceptor
  tcp_accept_warn p = record p { server = on_io (asked Call.time) p.server }

  -- The accept failed.
  abbrev pub refused : ℕ → Failure → Acceptor → Acceptor
  refused tcplistenfd transient p = p
  refused tcplistenfd exhausted p = tcp_accept_drain_reserve tcplistenfd (tcp_accept_warn p)
  refused tcplistenfd unexpected p = tcp_accept_warn p

  -- Seven of the nine bytes of `txbuf` are written.
  abbrev pub too_many : List ℕ → List ℕ
  too_many old = uint16tnfs 0 ++ (0 ∷ 0 ∷ 0xFF ∷ 0x03 ∷ 0x01 ∷ get_or old 7 0 ∷ get_or old 8 0 ∷ [])

  -- The client is told that there are too many connections.
  unfoldable pub turn_away : ℕ → Io → Io
  turn_away fd io =
      let txbuf = too_many (os.garbage io.calls) in
      let r = os.send io.calls fd txbuf in closes fd (did (Call.send fd txbuf) r io)

  unfoldable pub place : Accepted → Io → Io
  unfolding place_conn tnfs_event_unregister turn_away
  place c io =
      let t : TcpConnection = record {
        cli_addr = c.ip;
        cli_port = c.port;
        cli_fd = c.fd;
        last_contact = os.time io.calls;
      } in
      elim (place_conn t io.tcpsocks) [
        | some ts ↦ asked Call.time (record io { tcpsocks = ts })
        | none ↦ turn_away c.fd (tnfs_event_unregister os c.fd io)
      ]

  unfoldable pub welcome : Accepted → Io → Io
  unfolding tnfs_event_register apply_keepalive_options place turn_away
  welcome c io =
      let (registered, io') = tnfs_event_register os c.fd (apply_keepalive_options c.fd io) in
      if registered then place c io' else turn_away c.fd io'

  abbrev pub accept_end : ℕ → Result Accepted → Acceptor → Acceptor
  accept_end tcplistenfd (ok c) p = record p { server = on_io (welcome c) p.server }
  accept_end tcplistenfd (err e) p = refused tcplistenfd (failure e) p

  unfoldable pub tcp_accept : ℕ → Acceptor → Acceptor
  unfolding failure welcome tcp_accept_drain_reserve
  tcp_accept tcplistenfd p =
      let r = os.accept (p.server).calls tcplistenfd in
      accept_end tcplistenfd r
        (record p { server = on_io (did (Call.accept tcplistenfd) r) p.server })

  unfoldable pub tnfs_close_tcp : ℕ → Server → Server
  unfolding modify tnfs_event_unregister tnfs_reset_cli_fd_in_sessions
  tnfs_close_tcp i srv =
      let fd = (conn_at i srv.tcpsocks).cli_fd in
      let io = tnfs_event_unregister os fd (closes fd srv.io) in
      record {
        slist = tnfs_reset_cli_fd_in_sessions fd srv.slist;
        io = record io { tcpsocks = modify i (λ t. record t { cli_fd = 0 }) io.tcpsocks };
      }

  -- The connections from `i` on, `n` of them.
  unfoldable pub close_stale : ℕ → ℕ → ℕ → Server → Server
  close_stale now zero i srv = srv
  close_stale now (suc n) i srv =
      let t = conn_at i srv.tcpsocks in
      let due = not (t.cli_fd == 0) && ltb (t.last_contact + conn_timeout) now in
      close_stale now n (suc i) (if due then tnfs_close_tcp i srv else srv)

  -- The array has MAX_TCP_CONN entries, which are those of the list.
  unfoldable pub tnfs_close_stale_connections : Server → Server
  unfolding close_stale
  tnfs_close_stale_connections srv =
      close_stale (os.time srv.calls) (length srv.tcpsocks) 0 (on_io (asked Call.time) srv)

  unfoldable pub close_all : ℕ → ℕ → Server → Server
  close_all zero i srv = srv
  close_all (suc n) i srv =
      let used = not ((conn_at i srv.tcpsocks).cli_fd == 0) in
      close_all n (suc i) (if used then tnfs_close_tcp i srv else srv)

  unfoldable pub tnfs_close_all_connections : Server → Server
  unfolding close_all
  tnfs_close_all_connections srv = close_all (length srv.tcpsocks) 0 srv

  module _ (conf : Config) where
    abbrev pub udp_end : Result Datagram → List ℕ → Server → Server
    udp_end (err e) old srv = srv
    udp_end (ok d) old srv =
        if leb tnfs_headersz (length d.bytes)
        then tnfs_decode os conf (record { ip = d.ip; port = d.port }) 0 (length d.bytes)
            (received_into old d.bytes) srv
        else srv

    unfoldable pub tnfs_handle_udpmsg : ℕ → Server → Server
    tnfs_handle_udpmsg sockfd srv =
        let r = os.recvfrom srv.calls sockfd maxmsgsz in
        udp_end r (os.garbage srv.calls) (on_io (did (Call.recvfrom sockfd maxmsgsz) r) srv)

    abbrev pub tcp_end : ℕ → TcpConnection → Result (List ℕ) → List ℕ → Server → Server
    tcp_end i c (err e) old srv = tnfs_close_tcp i srv
    tcp_end i c (ok []) old srv = tnfs_close_tcp i srv
    tcp_end i c (ok (b ∷ bs)) old srv =
        tnfs_decode os conf (record { ip = c.cli_addr; port = c.cli_port }) c.cli_fd
          (suc (length bs)) (received_into old (b ∷ bs)) srv

    unfoldable pub tnfs_handle_tcpmsg : ℕ → Server → Server
    unfolding modify tnfs_close_tcp
    tnfs_handle_tcpmsg i srv =
        let c = conn_at i srv.tcpsocks in
        let now = os.time srv.calls in
        let io = asked Call.time (record (srv.io) {
          tcpsocks = modify i (λ t. record t { last_contact = now }) srv.tcpsocks;
        }) in
        let r = os.recv io.calls c.cli_fd maxmsgsz in
        tcp_end i c r (os.garbage io.calls)
          (record srv { io = did (Call.recv c.cli_fd maxmsgsz) r io })

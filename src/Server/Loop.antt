-- ===== src/Server/Loop.antt =====
-- src/datagram.c, `tnfs_mainloop`; src/stats.c.
pub mod Steps
pub mod Accepting
pub mod Quiet
pub mod Started
pub mod Closing
pub mod Invariant
pub mod Links
use tnfsd.Base.{
  ℕ, zero, suc, Bool, true, false, not, ◌&&◌, Option, none, some, List, [], ◌∷◌, ◌+◌, ◌%◌, ◌^◌,
  ◌==◌, ltb, leb, if◌then◌else◌, length, replicate,
}
use tnfsd.Os.{Os, Call, Result, ok, err, Errno, eintr}
use tnfsd.Tnfs.{Config, TcpConnection, Io, asked}
use tnfsd.Sessions.{Server, tnfs_expire_sessions, tnfs_free_all_sessions}
use tnfsd.Server.Event.{tnfs_event_register, tnfs_event_wait, tnfs_event_is_active}
use tnfsd.Server.Connections.{
  Listeners, Acceptor, on_io, conn_at, free_conn, max_tcp_conn, tcp_accept, tnfs_handle_udpmsg,
  tnfs_handle_tcpmsg, tnfs_close_stale_connections, tnfs_close_all_connections,
}

abbrev pub session_sweep_interval : ℕ
session_sweep_interval = 10

abbrev pub stats_interval : ℕ
stats_interval = 60

-- `tcp_connections_count`, whose result is a `uint8_t`
unfoldable pub used_conns : List TcpConnection → ℕ
used_conns [] = 0
used_conns (t ∷ ts) = if t.cli_fd == 0 then used_conns ts else suc (used_conns ts)

unfoldable pub tcp_connections_count : List TcpConnection → ℕ
unfolding used_conns
tcp_connections_count ts = used_conns ts % 2 ^ 16 % 2 ^ 8

-- The state of the loop, its local variables included.
pub record Loop : Type 0 where
  pub acceptor : Acceptor
  pub last_stats_report : ℕ
  pub last_session_sweep : ℕ

abbrev pub server_of : Loop → Server
server_of l = (l.acceptor).server

abbrev pub with_server : Loop → Server → Loop
with_server l srv = record l { acceptor = record (l.acceptor) { server = srv } }

-- What a pass leaves, and whether there is another one.
pub record Pass : Type 0 where
  pub loop : Loop
  pub goes_on : Bool

abbrev is_eintr : Errno → Bool
is_eintr eintr = true
is_eintr _ = false

module _ (os : Os) (conf : Config) (at : Listeners) where
  -- The connections from `i` on, `n` of them: those that are ready are read from.
  unfoldable pub read_ready : List ℕ → ℕ → ℕ → Server → Server
  unfolding tnfs_event_is_active
  read_ready ready zero i srv = srv
  read_ready ready (suc n) i srv =
      let fd = (conn_at i srv.tcpsocks).cli_fd in
      let due = not (fd == 0) && tnfs_event_is_active ready fd in
      read_ready ready n (suc i) (if due then tnfs_handle_tcpmsg os conf i srv else srv)

  -- Every ten seconds the sessions that are too old are freed.
  unfoldable pub sweep : ℕ → Loop → Loop
  sweep now l =
      if leb (l.last_session_sweep + session_sweep_interval) now
      then record (with_server l (tnfs_expire_sessions os (server_of l))) {
        last_session_sweep = now;
      }
      else l

  -- The report itself is for the log.
  unfoldable pub report : Loop → Loop
  report l =
      let now = os.time (server_of l).calls in
      let l' = with_server l (on_io (asked Call.time) (server_of l)) in
      if ltb (l.last_stats_report + stats_interval) now
      then record l' { last_stats_report = now }
      else l'

  -- A datagram and a connection, if they wait
  unfoldable pub hear : List ℕ → Acceptor → Acceptor
  unfolding tnfs_event_is_active tcp_accept tnfs_handle_udpmsg
  hear ready p =
      let p' : Acceptor =
        if tnfs_event_is_active ready at.sockfd
        then record p { server = tnfs_handle_udpmsg os conf at.sockfd p.server }
        else p in
      if tnfs_event_is_active ready at.tcplistenfd then tcp_accept os at.tcplistenfd p' else p'

  -- What is ready is served.
  unfoldable pub serve_ready : List ℕ → Loop → Loop
  unfolding hear read_ready report
  serve_ready ready l =
      let p = hear ready l.acceptor in
      let srv = read_ready ready (length (p.server).tcpsocks) 0 p.server in
      report (record l { acceptor = record p { server = srv } })

  abbrev pub pass_end : Result (List ℕ) → Loop → Pass
  pass_end (err e) l = record { loop = l; goes_on = is_eintr e }
  pass_end (ok []) l = record { loop = l; goes_on = true }
  pass_end (ok (f ∷ fs)) l = record { loop = serve_ready (f ∷ fs) l; goes_on = true }

  -- The body of the loop
  unfoldable pub one_pass : Loop → Pass
  unfolding tnfs_close_stale_connections sweep tnfs_event_wait serve_ready
  one_pass l =
      let now = os.time (server_of l).calls in
      let timed = on_io (asked Call.time) (server_of l) in
      let swept = sweep now (with_server l (tnfs_close_stale_connections os timed)) in
      let (ready, io) = tnfs_event_wait os 1 (server_of swept).io in
      pass_end ready (with_server swept (record (server_of swept) { io = io }))

  -- The passes, `n` at most: the state, and whether the loop goes on after them.
  unfoldable pub passes : ℕ → Loop → Pass
  unfolding one_pass
  passes zero l = record { loop = l; goes_on = true }
  passes (suc n) l =
      let p = one_pass l in
      let rest = passes n p.loop in
      if os.stopped (server_of l).calls
      then record { loop = l; goes_on = false }
      else if p.goes_on
      then rest
      else p

  -- The start of `tnfs_mainloop`: no connections, and the two sockets registered
  unfoldable pub loop_start : Acceptor → Loop
  unfolding max_tcp_conn tnfs_event_register
  loop_start p =
      let io : Io = record (p.server).io { tcpsocks = replicate max_tcp_conn free_conn } in
      let (u, io') = tnfs_event_register os at.sockfd io in
      let (t, io'') = tnfs_event_register os at.tcplistenfd io' in
      record {
        acceptor = record p { server = record (p.server) { io = io'' } };
        last_stats_report = 0;
        last_session_sweep = 0;
      }

  -- Its end: every connection is closed and every session freed.
  unfoldable pub loop_end : Server → Server
  unfolding tnfs_close_all_connections tnfs_free_all_sessions
  loop_end srv =
      let closed = tnfs_close_all_connections os srv in
      let (slots, io) = tnfs_free_all_sessions os closed.slist closed.io in
      record { slist = slots; io = io }

  -- What is left when the loop ends within `n` passes; nothing if it goes on.
  unfoldable pub tnfs_mainloop : ℕ → Acceptor → Option Server
  unfolding loop_start passes loop_end
  tnfs_mainloop n p =
      let r = passes n (loop_start p) in
      if r.goes_on then none else some (loop_end (server_of r.loop))

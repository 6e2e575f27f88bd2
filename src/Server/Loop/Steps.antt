-- ===== src/Server/Loop/Steps.antt =====
-- src/datagram.c: the server as a step relation, in which the environment chooses what comes next, and
-- `tnfs_mainloop` as one of the orders that it allows.
use tnfsd.Base.{
  ℕ, zero, suc, Bool, true, false, not, ◌&&◌, List, [], ◌∷◌, ◌+◌, ◌==◌, ◌≡◌, refl, ltb, leb,
  if◌then◌else◌, inl, inr, Bool-cases, &&-true, length,
}
use tnfsd.Os.{Os, Call, Result, ok, err, Errno}
use tnfsd.Tnfs.{Config, asked, conn_timeout}
use tnfsd.Sessions.{Server, tnfs_expire_sessions}
use tnfsd.Server.Event.{tnfs_event_is_active, tnfs_event_wait}
use tnfsd.Server.Connections.{
  Listeners, Acceptor, on_io, conn_at, tcp_accept, tnfs_handle_udpmsg, tnfs_handle_tcpmsg,
  tnfs_close_tcp, close_stale, tnfs_close_stale_connections,
}
use tnfsd.Server.Loop.{
  Loop, server_of, with_server, read_ready, sweep, report, hear, serve_ready, pass_end, one_pass,
  passes,
}

-- The loop asks for the time, or waits.
unfoldable pub is_waiting : Call → Bool
is_waiting Call.time = true
is_waiting (Call.epoll_wait ms) = true
is_waiting _ = false

-- The slot `i` holds a connection.
abbrev pub InUse : ℕ → Server → Type 0
InUse i srv = not ((conn_at i srv.tcpsocks).cli_fd == 0) ≡ true

pub data Step (os : Os) (conf : Config) (at : Listeners) : Server → Server → Type 0 where
  waited :
      (srv : Server) (c : Call) (e : Errno)
      → is_waiting c ≡ true
      → Step os conf at srv
          (record srv { io = record (srv.io) { calls = c ∷ srv.calls; errno = e } })
  expired : (srv : Server) → Step os conf at srv (tnfs_expire_sessions os srv)
  datagram : (srv : Server) → Step os conf at srv (tnfs_handle_udpmsg os conf at.sockfd srv)
  accepted : (p : Acceptor) → Step os conf at p.server (tcp_accept os at.tcplistenfd p).server
  message :
      (i : ℕ) (srv : Server) → InUse i srv → Step os conf at srv (tnfs_handle_tcpmsg os conf i srv)
  closed : (i : ℕ) (srv : Server) → InUse i srv → Step os conf at srv (tnfs_close_tcp os i srv)

pub data Reach (os : Os) (conf : Config) (at : Listeners) (s : Server) : Server → Type 0 where
  here : Reach os conf at s s
  next : {t u : Server} → Reach os conf at s t → Step os conf at t u → Reach os conf at s u

module _ (os : Os) (conf : Config) (at : Listeners) where
  Reach-trans :
      {s t u : Server} → Reach os conf at s t → Reach os conf at t u → Reach os conf at s u
  Reach-trans r here = r
  Reach-trans r (next q step) = next (Reach-trans r q) step

  close_stale-Reach :
      (now n i : ℕ) (srv : Server) → Reach os conf at srv (close_stale os now n i srv)
  unfolding close_stale
  close_stale-Reach now zero i srv = here
  close_stale-Reach now (suc n) i srv =
      let t = conn_at i srv.tcpsocks in
      elim (Bool-cases (not (t.cli_fd == 0) && ltb (t.last_contact + conn_timeout) now)) [
        | inl due ↦
            rw (due, close_stale)
              (Reach-trans (next here (closed i srv (&&-true due).0))
                (close_stale-Reach now n (suc i) (tnfs_close_tcp os i srv)))
        | inr not_yet ↦ rw (not_yet, close_stale) (close_stale-Reach now n (suc i) srv)
      ]

  stale-Reach : (srv : Server) → Reach os conf at srv (tnfs_close_stale_connections os srv)
  unfolding tnfs_close_stale_connections is_waiting
  stale-Reach srv =
      Reach-trans (next here (waited srv Call.time (srv.io).errno refl))
        (close_stale-Reach (os.time srv.calls) (length srv.tcpsocks) 0 _)

  read_ready-Reach :
      (ready : List ℕ) (n i : ℕ) (srv : Server)
      → Reach os conf at srv (read_ready os conf at ready n i srv)
  unfolding read_ready
  read_ready-Reach ready zero i srv = here
  read_ready-Reach ready (suc n) i srv =
      let fd = (conn_at i srv.tcpsocks).cli_fd in
      elim (Bool-cases (not (fd == 0) && tnfs_event_is_active ready fd)) [
        | inl due ↦
            rw (due, read_ready)
              (Reach-trans (next here (message i srv (&&-true due).0))
                (read_ready-Reach ready n (suc i) (tnfs_handle_tcpmsg os conf i srv)))
        | inr idle ↦ rw (idle, read_ready) (read_ready-Reach ready n (suc i) srv)
      ]

  sweep-Reach :
      (now : ℕ) (l : Loop) → Reach os conf at (server_of l) (server_of (sweep os conf at now l))
  unfolding sweep
  sweep-Reach now l = elim (Bool-cases (leb (l.last_session_sweep + 10) now)) [
    | inl due ↦ rw (due, sweep) (next here (expired (server_of l)))
    | inr not_yet ↦ rw (not_yet, sweep) here
  ]

  report-Reach : (l : Loop) → Reach os conf at (server_of l) (server_of (report os conf at l))
  unfolding report is_waiting
  report-Reach l =
      let r : Reach os conf at (server_of l) (on_io (asked Call.time) (server_of l)) =
        next here (waited (server_of l) Call.time ((server_of l).io).errno refl) in
      elim (Bool-cases (ltb (l.last_stats_report + 60) (os.time (server_of l).calls))) [
        | inl due ↦ rw (due, report) r
        | inr not_yet ↦ rw (not_yet, report) r
      ]

  accept-Reach :
      (b : Bool) (p : Acceptor)
      → Reach os conf at p.server (if b then tcp_accept os at.tcplistenfd p else p).server
  accept-Reach true p = next here (accepted p)
  accept-Reach false p = here

  hear-Reach :
      (ready : List ℕ) (p : Acceptor) → Reach os conf at p.server (hear os conf at ready p).server
  unfolding hear
  hear-Reach ready p =
      let active = tnfs_event_is_active ready at.tcplistenfd in
      elim (Bool-cases (tnfs_event_is_active ready at.sockfd)) [
        | inl udp ↦
            rw (udp, hear)
              (Reach-trans (next here (datagram p.server)) (
                accept-Reach active
                  (record p { server = tnfs_handle_udpmsg os conf at.sockfd p.server })))
        | inr idle ↦ rw (idle, hear) (accept-Reach active p)
      ]

  serve_ready-Reach :
      (ready : List ℕ) (l : Loop)
      → Reach os conf at (server_of l) (server_of (serve_ready os conf at ready l))
  unfolding serve_ready
  serve_ready-Reach ready l =
      let p = hear os conf at ready l.acceptor in
      let n = length (p.server).tcpsocks in
      let srv = read_ready os conf at ready n 0 p.server in
      Reach-trans (hear-Reach ready l.acceptor) (
        Reach-trans (read_ready-Reach ready n 0 p.server)
          (report-Reach (record l { acceptor = record p { server = srv } })))

  pass_end-Reach :
      (r : Result (List ℕ)) (l : Loop)
      → Reach os conf at (server_of l) (server_of (pass_end os conf at r l).loop)
  pass_end-Reach (err e) l = here
  pass_end-Reach (ok []) l = here
  pass_end-Reach (ok (f ∷ fs)) l = serve_ready-Reach (f ∷ fs) l

  one_pass-Reach :
      (l : Loop) → Reach os conf at (server_of l) (server_of (one_pass os conf at l).loop)
  unfolding one_pass tnfs_event_wait is_waiting
  one_pass-Reach l =
      let now = os.time (server_of l).calls in
      let timed : Server = on_io (asked Call.time) (server_of l) in
      let stale = tnfs_close_stale_connections os timed in
      let swept = sweep os conf at now (with_server l stale) in
      Reach-trans (next here (waited (server_of l) Call.time ((server_of l).io).errno refl)) (
        Reach-trans (stale-Reach timed) (
          Reach-trans (sweep-Reach now (with_server l stale)) (
            Reach-trans (next here (waited (server_of swept) (Call.epoll_wait 1000) _ refl))
              (pass_end-Reach _ _))))

  -- Whatever arrives and however many passes the loop makes, it does nothing but steps of the
  -- relation, one after the other: a connection is read from or closed only while its slot is in use.
  pub passes-Reach :
      (n : ℕ) (l : Loop) → Reach os conf at (server_of l) (server_of (passes os conf at n l).loop)
  unfolding passes
  passes-Reach zero l = here
  passes-Reach (suc n) l =
      let p = one_pass os conf at l in
      elim (Bool-cases (os.stopped (server_of l).calls)) [
        | inl stops ↦ rw (stops, passes) here
        | inr stays ↦ elim (Bool-cases p.goes_on) [
          | inl again ↦
              rw (stays, again, passes) (Reach-trans (one_pass-Reach l) (passes-Reach n p.loop))
          | inr broken ↦ rw (stays, broken, passes) (one_pass-Reach l)
        ]
      ]

-- ===== src/Server/Loop/Invariant.antt =====
-- src/datagram.c, src/session.c: what holds of the table of sessions and of the connections, whatever
-- arrives in whatever order.
use tnfsd.Base.{
  suc, ℕ, true, Option-cases, List, [], ◌∷◌, leb, ◌≡◌, sym, subst, arith, inl, inr, Bool-cases,
  length,
}
use tnfsd.Os.{Os, Call, Accepted, Datagram, Result, ok, err}
use tnfsd.Tnfs.{Config, TcpConnection, Io, did, asked}
use tnfsd.Shape.{conns}
use tnfsd.Sessions.{Slots, Server, tnfs_expire_sessions}
use tnfsd.Sessions.Table.{expire_slots-map}
use tnfsd.Sessions.Sound.{linked, linked-zero}
use tnfsd.Sessions.Sound.Mounting.{conns-tnfs_expire_sessions, tnfs_expire_sessions-Sound}
use tnfsd.Sessions.Ids.{expire_slots-Distinct}
use tnfsd.Sessions.Resetting.{
  Distinct-reset, count_ip-reset, count_ip-keep, Sound-grows, Sound-reset,
}
use tnfsd.Server.Sound.{IsGood, tnfs_decode-IsGood}
use tnfsd.Server.Event.{tnfs_event_register, tnfs_event_unregister}
use tnfsd.Server.Connections.{
  Listeners, Acceptor, conn_at, modify, Failure, transient, exhausted, unexpected, failure,
  accept_end, udp_end, tcp_accept_warn, place_conn, apply_keepalive_options, drained,
  tcp_accept_drain_reserve, refused, turn_away, place, welcome, tcp_accept, tnfs_close_tcp, tcp_end,
  tnfs_handle_udpmsg, tnfs_handle_tcpmsg,
}
use tnfsd.Server.Loop.Steps.{
  Step, Reach, waited, expired, datagram, accepted, message, closed, here, next,
}
use tnfsd.Server.Loop.Links.{fds-touched, linked-conn_at, linked-close_at, linked-place_conn}

-- Every connection that is there stays.
abbrev Grows : Io → Io → Type 0
Grows io io' = (f : ℕ) → linked (conns io) f ≡ true → linked (conns io') f ≡ true

grown :
    (slots : Slots) (io io' : Io)
    → Grows io io'
    → IsGood (record { slist = slots; io = io })
    → IsGood (record { slist = slots; io = io' })
unfolding IsGood
grown slots io io' grows good =
    (good.0, good.1, Sound-grows (conns io) (conns io') slots grows good.2)

module _ (os : Os) where
  expired-IsGood : (srv : Server) → IsGood srv → IsGood (tnfs_expire_sessions os srv)
  unfolding IsGood tnfs_expire_sessions
  expired-IsGood srv good =
      let now = os.time srv.calls in
      let io = asked Call.time srv.io in
      (
        expire_slots-Distinct os now srv.slist io good.0,
        λ ip.
            rw (expire_slots-map os now srv.slist io)
              (omega (arith, count_ip-keep (suc ip) now srv.slist, good.1 ip)),
        rw (conns-tnfs_expire_sessions os srv)
            (tnfs_expire_sessions-Sound os (conns srv.io) srv good.2),
      )

  -- A connection is closed, and no session names it any more.
  close_tcp-IsGood : (i : ℕ) (srv : Server) → IsGood srv → IsGood (tnfs_close_tcp os i srv)
  unfolding IsGood tnfs_close_tcp tnfs_event_unregister
  close_tcp-IsGood i srv good =
      let fd = (conn_at i srv.tcpsocks).cli_fd in
      (
        Distinct-reset fd srv.slist good.0,
        λ ip. rw (count_ip-reset (suc ip) fd srv.slist) (good.1 ip),
        Sound-reset fd (conns srv.io) _ srv.slist
            (λ f other link. linked-close_at i f srv.tcpsocks other link) good.2,
      )

  Grows-drained : (fd reserve : ℕ) (io : Io) → Grows io (drained os fd reserve io).1
  unfolding drained
  Grows-drained fd reserve io f h = ground arith

  drain-IsGood :
      (fd : ℕ) (p : Acceptor) → IsGood p.server → IsGood (tcp_accept_drain_reserve os fd p).server
  unfolding tcp_accept_drain_reserve
  drain-IsGood fd p good = elim (Option-cases p.accept_reserve_fd) [
    | inl nothing ↦ rw (nothing, tcp_accept_drain_reserve) good
    | inr (reserve, e) ↦
        rw (e, tcp_accept_drain_reserve)
          (grown (p.server).slist (p.server).io _ (Grows-drained fd reserve (p.server).io) good)
  ]

  warned-IsGood : (p : Acceptor) → IsGood p.server → IsGood (tcp_accept_warn os p).server
  warned-IsGood p good =
      grown (p.server).slist (p.server).io (asked Call.time (p.server).io) (λ f h. h) good

  refused-IsGood :
      (fd : ℕ) (e : Failure) (p : Acceptor) → IsGood p.server → IsGood (refused os fd e p).server
  refused-IsGood fd transient p good = good
  refused-IsGood fd exhausted p good = drain-IsGood fd (tcp_accept_warn os p) (warned-IsGood p good)
  refused-IsGood fd unexpected p good = warned-IsGood p good

  Grows-turn_away : (fd : ℕ) (io : Io) → Grows io (turn_away os fd io)
  unfolding turn_away
  Grows-turn_away fd io f h = h

  Grows-place : (c : Accepted) (io : Io) → Grows io (place os c io)
  unfolding place tnfs_event_unregister turn_away
  Grows-place c io f h =
      let t : TcpConnection = record {
        cli_addr = c.ip;
        cli_port = c.port;
        cli_fd = c.fd;
        last_contact = os.time io.calls;
      } in
      elim (Option-cases (place_conn t io.tcpsocks)) [
        | inl full ↦ rw (full, place) h
        | inr (ts, e) ↦ rw (e, place) (linked-place_conn t f io.tcpsocks ts e h)
      ]

  Grows-welcome : (c : Accepted) (io : Io) → Grows io (welcome os c io)
  unfolding welcome tnfs_event_register apply_keepalive_options
  Grows-welcome c io f h =
      let io1 = apply_keepalive_options os c.fd io in
      let r = tnfs_event_register os c.fd io1 in
      elim (Bool-cases r.0) [
        | inl registered ↦ rw (registered, welcome) (Grows-place c r.1 f h)
        | inr not_registered ↦ rw (not_registered, welcome) (Grows-turn_away c.fd r.1 f h)
      ]

  accept_end-IsGood :
      (fd : ℕ) (r : Result Accepted) (p : Acceptor)
      → IsGood p.server
      → IsGood (accept_end os fd r p).server
  accept_end-IsGood fd (ok c) p good =
      grown (p.server).slist (p.server).io _ (Grows-welcome c (p.server).io) good
  accept_end-IsGood fd (err e) p good = refused-IsGood fd (failure e) p good

  accept-IsGood : (fd : ℕ) (p : Acceptor) → IsGood p.server → IsGood (tcp_accept os fd p).server
  unfolding tcp_accept
  accept-IsGood fd p good =
      let r = os.accept (p.server).calls fd in
      accept_end-IsGood fd r _ (
        grown (p.server).slist (p.server).io (did (Call.accept fd) r (p.server).io) (λ f h. h) good)

module _ (os : Os) (conf : Config) where
  udp_end-IsGood :
      (r : Result Datagram) (old : List ℕ) (srv : Server)
      → IsGood srv
      → IsGood (udp_end os conf r old srv)
  udp_end-IsGood (err e) old srv good = good
  udp_end-IsGood (ok d) old srv good = elim (Bool-cases (leb 4 (length d.bytes))) [
    | inl long ↦ rw long (tnfs_decode-IsGood os conf _ 0 _ _ srv (linked-zero (conns srv.io)) good)
    | inr short ↦ rw short good
  ]

  udp-IsGood : (fd : ℕ) (srv : Server) → IsGood srv → IsGood (tnfs_handle_udpmsg os conf fd srv)
  unfolding tnfs_handle_udpmsg
  udp-IsGood fd srv good =
      let r = os.recvfrom srv.calls fd 532 in
      udp_end-IsGood r _ _
        (grown srv.slist srv.io (did (Call.recvfrom fd 532) r srv.io) (λ f h. h) good)

  tcp_end-IsGood :
      (i : ℕ) (c : TcpConnection) (r : Result (List ℕ)) (old : List ℕ) (srv : Server)
      → linked (conns srv.io) c.cli_fd ≡ true
      → IsGood srv
      → IsGood (tcp_end os conf i c r old srv)
  tcp_end-IsGood i c (err e) old srv link good = close_tcp-IsGood os i srv good
  tcp_end-IsGood i c (ok []) old srv link good = close_tcp-IsGood os i srv good
  tcp_end-IsGood i c (ok (b ∷ bs)) old srv link good =
      tnfs_decode-IsGood os conf _ c.cli_fd _ _ srv link good

  tcp-IsGood : (i : ℕ) (srv : Server) → IsGood srv → IsGood (tnfs_handle_tcpmsg os conf i srv)
  unfolding tnfs_handle_tcpmsg
  tcp-IsGood i srv good =
      let c = conn_at i srv.tcpsocks in
      let now = os.time srv.calls in
      let touched : Io = record (srv.io) {
        tcpsocks = modify i (λ t. record t { last_contact = now }) srv.tcpsocks;
      } in
      let io = asked Call.time touched in
      let r = os.recv io.calls c.cli_fd 532 in
      let same : conns touched ≡ conns srv.io = fds-touched i now srv.tcpsocks in
      let there : linked (conns touched) c.cli_fd ≡ true =
        subst (λ l. linked l c.cli_fd ≡ true) (sym same) (linked-conn_at i srv.tcpsocks) in
      let stay : Grows srv.io touched = λ f h. subst (λ l. linked l f ≡ true) (sym same) h in
      tcp_end-IsGood i c r _ _ there
        (grown srv.slist srv.io (did (Call.recv c.cli_fd 532) r io) stay good)

  module _ (at : Listeners) where
    Step-IsGood : {s t : Server} → Step os conf at s t → IsGood s → IsGood t
    Step-IsGood (waited srv c e w) good = grown srv.slist srv.io _ (λ f h. h) good
    Step-IsGood (expired srv) good = expired-IsGood os srv good
    Step-IsGood (datagram srv) good = udp-IsGood at.sockfd srv good
    Step-IsGood (accepted p) good = accept-IsGood os at.tcplistenfd p good
    Step-IsGood (message i srv used) good = tcp-IsGood i srv good
    Step-IsGood (closed i srv used) good = close_tcp-IsGood os i srv good

    -- In every state that the server reaches by steps in any order: no two sessions have the same ID,
    -- no client but the address 0 has more than 16 sessions, the tables of every session have their
    -- sizes, its kept message fits its buffer, and the connection that it names, if any, is open; if
    -- all this held at the start.
    pub Reach-IsGood : {s t : Server} → IsGood s → Reach os conf at s t → IsGood t
    Reach-IsGood good here = good
    Reach-IsGood good (next r step) = Step-IsGood step (Reach-IsGood good r)

-- ===== src/Server/Loop/Quiet.antt =====
-- src/datagram.c: what the server does to its clients and to the files, whatever arrives in whatever
-- order.
use tnfsd.Base.{
  ℕ, zero, suc, true, false, none, some, Option-cases, List, [], ◌∷◌, ◌++◌, ◌≤◌, ◌<◌, leb, ◌≡◌,
  refl, arith, inl, inr, Bool-cases, length, get_or, drop, All,
}
use tnfsd.Os.{
  Reads, Reads-reads, Os, Call, Accepted, Datagram, Result, ok, err, sends, is_mutating,
  opens_for_write, ReadsOnly, ReadBound,
}
use tnfsd.Tnfs.{Config, TcpConnection, Io, did, asked}
use tnfsd.Sessions.{Slots, Server, expire_slots, tnfs_expire_sessions}
use tnfsd.Sessions.Replies.{Silent, close_session-Silent}
use tnfsd.Server.Decode.{Addr, tnfs_decode}
use tnfsd.Server.Answers.{tnfs_decode-AtMost}
use tnfsd.Server.ReadOnly.{tnfs_decode-ReadsOnly}
use tnfsd.Server.Event.{tnfs_event_register, tnfs_event_unregister}
use tnfsd.Server.Connections.{
  Listeners, Acceptor, on_io, conn_at, Failure, transient, exhausted, unexpected, failure,
  apply_keepalive_options, drained, tcp_accept_drain_reserve, refused, turn_away, place, welcome,
  accept_end, tcp_accept, tnfs_close_tcp, udp_end, tcp_end, tnfs_handle_udpmsg, tnfs_handle_tcpmsg,
  received_into,
}
use tnfsd.Server.Loop.Steps.{
  Step, Reach, is_waiting, waited, expired, datagram, accepted, message, closed, here, next,
}

abbrev pub IsByte : ℕ → Type 0
IsByte c = c < 256

-- What is received is bytes, and so is what an array held before.
abbrev pub ReceivesBytes : Os → Type 0
ReceivesBytes os =
    ((h : List Call) (fd n : ℕ) (d : Datagram) → os.recvfrom h fd n ≡ ok d → All IsByte d.bytes)
    × ((h : List Call) (fd n : ℕ) (bytes : List ℕ) → os.recv h fd n ≡ ok bytes → All IsByte bytes)
    × ((h : List Call) → All IsByte (os.garbage h))

All-drop : (n : ℕ) (xs : List ℕ) → All IsByte xs → All IsByte (drop n xs)
All-drop zero xs all = all
All-drop (suc n) [] all = tt
All-drop (suc n) (x ∷ xs) all = All-drop n xs all.1

All-append : (xs ys : List ℕ) → All IsByte xs → All IsByte ys → All IsByte (xs ++ ys)
All-append [] ys a b = b
All-append (x ∷ xs) ys a b = (a.0, All-append xs ys a.1 b)

get_or-IsByte : (i : ℕ) (xs : List ℕ) → All IsByte xs → get_or xs i 0 < 256
get_or-IsByte i [] all = omega arith
get_or-IsByte zero (x ∷ xs) all = all.0
get_or-IsByte (suc i) (x ∷ xs) all = get_or-IsByte i xs all.1

received-IsByte :
    (i : ℕ) (old bytes : List ℕ)
    → All IsByte bytes
    → All IsByte old
    → get_or (received_into old bytes) i 0 < 256
received-IsByte i old bytes b o =
    get_or-IsByte i (received_into old bytes)
      (All-append bytes (drop (length bytes) old) b (All-drop (length bytes) old o))

module _ (os : Os) (conf : Config) (bound : ReadBound os) (bytes : ReceivesBytes os) where
  -- One message at most, and no change of a file by a read-only server.
  abbrev Modest : Io → Io → Type 0
  Modest io io' =
      (sends io'.calls ≤ suc (sends io.calls))
      × (conf.read_only ≡ true → ReadsOnly io.calls → ReadsOnly io'.calls)

  expire_slots-Silent :
      (now : ℕ) (slots : Slots) (io : Io)
      → Silent Reads Reads-reads io (expire_slots os now slots io).1
  unfolding expire_slots
  expire_slots-Silent now [] io = (refl, λ q. q)
  expire_slots-Silent now (none ∷ rest) io = expire_slots-Silent now rest io
  expire_slots-Silent now (some s ∷ rest) io = (
    grind (arith, expire_slots-Silent now rest, close_session-Silent Reads Reads-reads os),
    λ q. grind (arith, expire_slots-Silent now rest, close_session-Silent Reads Reads-reads os),
  )

  expired-Modest : (srv : Server) → Modest srv.io (tnfs_expire_sessions os srv).io
  unfolding tnfs_expire_sessions sends is_mutating
  expired-Modest srv =
      let s = expire_slots-Silent (os.time srv.calls) srv.slist (asked Call.time srv.io) in
      (omega (arith, s.0), λ r q. s.1 (refl, q))

  closed-Modest : (i : ℕ) (srv : Server) → Modest srv.io (tnfs_close_tcp os i srv).io
  unfolding tnfs_close_tcp tnfs_event_unregister sends is_mutating
  closed-Modest i srv = (omega arith, λ r q. (refl, (refl, q)))

  drained-Modest : (fd reserve : ℕ) (io : Io) → Modest io (drained os fd reserve io).1
  unfolding drained sends is_mutating opens_for_write
  drained-Modest fd reserve io = (ground arith, λ r q. ground arith)

  refused-Modest :
      (fd : ℕ) (e : Failure) (p : Acceptor) → Modest (p.server).io ((refused os fd e p).server).io
  unfolding sends is_mutating tcp_accept_drain_reserve
  refused-Modest fd transient p = (omega arith, λ r q. q)
  refused-Modest fd unexpected p = (omega arith, λ r q. (refl, q))
  refused-Modest fd exhausted p = elim (Option-cases p.accept_reserve_fd) [
    | inl nothing ↦ rw (nothing, tcp_accept_drain_reserve) (omega arith, λ r q. (refl, q))
    | inr (reserve, e) ↦
        let d = drained-Modest fd reserve (asked Call.time (p.server).io) in
        rw (e, tcp_accept_drain_reserve) (d.0, λ r q. d.1 r (refl, q))
  ]

  turn_away-Modest : (fd : ℕ) (io : Io) → Modest io (turn_away os fd io)
  unfolding turn_away sends is_mutating
  turn_away-Modest fd io = (omega arith, λ r q. (refl, (refl, q)))

  place-Modest : (c : Accepted) (io : Io) → Modest io (place os c io)
  unfolding place tnfs_event_unregister sends is_mutating
  place-Modest c io =
      (grind (arith, turn_away-Modest c.fd), λ r q. grind (arith, turn_away-Modest c.fd))

  welcome-Modest : (c : Accepted) (io : Io) → Modest io (welcome os c io)
  unfolding welcome tnfs_event_register apply_keepalive_options sends is_mutating
  welcome-Modest c io =
      let r = tnfs_event_register os c.fd (apply_keepalive_options os c.fd io) in
      elim (Bool-cases r.0) [
        | inl registered ↦
            let m = place-Modest c r.1 in
            rw (registered, welcome)
              (m.0, λ e q. m.1 e (refl, (refl, (refl, (refl, (refl, (refl, (refl, q))))))))
        | inr not_registered ↦
            let m = turn_away-Modest c.fd r.1 in
            rw (not_registered, welcome)
              (m.0, λ e q. m.1 e (refl, (refl, (refl, (refl, (refl, (refl, (refl, q))))))))
      ]

  accept_end-Modest :
      (fd : ℕ) (r : Result Accepted) (p : Acceptor)
      → Modest (p.server).io ((accept_end os fd r p).server).io
  accept_end-Modest fd (ok c) p = welcome-Modest c (p.server).io
  accept_end-Modest fd (err e) p = refused-Modest fd (failure e) p

  accept-Modest : (fd : ℕ) (p : Acceptor) → Modest (p.server).io ((tcp_accept os fd p).server).io
  unfolding tcp_accept sends is_mutating
  accept-Modest fd p =
      let r = os.accept (p.server).calls fd in
      let m =
        accept_end-Modest fd r (record p { server = on_io (did (Call.accept fd) r) p.server }) in
      (m.0, λ e q. m.1 e (refl, q))

  decode-Modest :
      (a : Addr) (cli_fd rxbytes : ℕ) (old got : List ℕ) (srv : Server)
      → All IsByte got
      → All IsByte old
      → Modest srv.io (tnfs_decode os conf a cli_fd rxbytes (received_into old got) srv).io
  decode-Modest a cli_fd rxbytes old got srv g o = (
    tnfs_decode-AtMost os conf a cli_fd rxbytes (received_into old got) srv bound,
    λ e q.
        tnfs_decode-ReadsOnly os conf bound e a cli_fd rxbytes (received_into old got) srv
          (received-IsByte 3 old got g o) q,
  )

  udp_end-Modest :
      (r : Result Datagram) (old : List ℕ) (srv : Server)
      → ((d : Datagram) → r ≡ ok d → All IsByte d.bytes)
      → All IsByte old
      → Modest srv.io (udp_end os conf r old srv).io
  udp_end-Modest (err e) old srv g o = (omega arith, λ r q. q)
  udp_end-Modest (ok d) old srv g o = elim (Bool-cases (leb 4 (length d.bytes))) [
    | inl long ↦ rw long (decode-Modest _ 0 _ old d.bytes srv (g d refl) o)
    | inr short ↦ rw short (omega arith, λ r q. q)
  ]

  udp-Modest : (fd : ℕ) (srv : Server) → Modest srv.io (tnfs_handle_udpmsg os conf fd srv).io
  unfolding tnfs_handle_udpmsg sends is_mutating
  udp-Modest fd srv =
      let r = os.recvfrom srv.calls fd 532 in
      let m =
        udp_end-Modest r (os.garbage srv.calls) (on_io (did (Call.recvfrom fd 532) r) srv)
          (bytes.0 srv.calls fd 532) (bytes.2 srv.calls) in
      (m.0, λ e q. m.1 e (refl, q))

  tcp_end-Modest :
      (i : ℕ) (c : TcpConnection) (r : Result (List ℕ)) (old : List ℕ) (srv : Server)
      → ((got : List ℕ) → r ≡ ok got → All IsByte got)
      → All IsByte old
      → Modest srv.io (tcp_end os conf i c r old srv).io
  tcp_end-Modest i c (err e) old srv g o = closed-Modest i srv
  tcp_end-Modest i c (ok []) old srv g o = closed-Modest i srv
  tcp_end-Modest i c (ok (b ∷ bs)) old srv g o =
      decode-Modest _ c.cli_fd _ old (b ∷ bs) srv (g (b ∷ bs) refl) o

  tcp-Modest : (i : ℕ) (srv : Server) → Modest srv.io (tnfs_handle_tcpmsg os conf i srv).io
  unfolding tnfs_handle_tcpmsg sends is_mutating
  tcp-Modest i srv =
      let c = conn_at i srv.tcpsocks in
      let h = Call.time ∷ srv.calls in
      let m =
        tcp_end-Modest i c (os.recv h c.cli_fd 532) (os.garbage h) _ (bytes.1 h c.cli_fd 532)
          (bytes.2 h) in
      (m.0, λ e q. m.1 e (refl, (refl, q)))

  module _ (at : Listeners) where
    waited-Modest :
        (c : Call) (calls : List Call)
        → is_waiting c ≡ true
        → (sends (c ∷ calls) ≡ sends calls) × (is_mutating c ≡ false)
    unfolding is_waiting sends is_mutating
    waited-Modest c calls w = (ground arith, ground arith)

    Step-Modest : {s t : Server} → Step os conf at s t → Modest s.io t.io
    Step-Modest (waited srv c e w) =
        let m = waited-Modest c srv.calls w in (omega (arith, m.0), λ r q. (m.1, q))
    Step-Modest (expired srv) = expired-Modest srv
    Step-Modest (datagram srv) = udp-Modest at.sockfd srv
    Step-Modest (accepted p) = accept-Modest at.tcplistenfd p
    Step-Modest (message i srv used) = tcp-Modest i srv
    Step-Modest (closed i srv used) = closed-Modest i srv

    -- If `read` gives no more bytes than it is asked for and what is received is bytes: no step
    -- of the server sends more than one message, be it a datagram, a message on a connection, a
    -- new connection, or time that goes by.
    pub Step-sends : {s t : Server} → Step os conf at s t → sends t.calls ≤ suc (sends s.calls)
    Step-sends step = (Step-Modest step).0

    -- If `read` gives no more bytes than it is asked for and what is received is bytes: a
    -- read-only server that has not changed a file or directory never does, in whatever order
    -- datagrams, messages on connections, new connections and time come.
    pub Reach-ReadsOnly :
        {s t : Server}
        → conf.read_only ≡ true
        → Reach os conf at s t
        → ReadsOnly s.calls
        → ReadsOnly t.calls
    Reach-ReadsOnly r here q = q
    Reach-ReadsOnly r (next p step) q = (Step-Modest step).1 r (Reach-ReadsOnly r p q)

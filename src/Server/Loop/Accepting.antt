-- ===== src/Server/Loop/Accepting.antt =====
-- src/datagram.c, `tcp_accept`: no descriptor that is accepted is lost.
use tnfsd.Base.{
  ℕ, true, none, some, Option, Option-cases, List, [], ◌∷◌, ◌==◌, ◌≡◌, ◌⊎◌, refl, ap, sym, subst,
  arith, inl, inr, Bool-cases, ==_refl,
}
use tnfsd.Os.{Os, Call, Accepted, Result, ok}
use tnfsd.Tnfs.{TcpConnection, Io}
use tnfsd.Shape.{fds, conns}
use tnfsd.Sessions.Sound.{linked}
use tnfsd.Sessions.Closing.{Made}
use tnfsd.Server.Event.{tnfs_event_register, tnfs_event_unregister}
use tnfsd.Server.Connections.{
  Acceptor, place_conn, apply_keepalive_options, turn_away, place, welcome, accept_end, tcp_accept,
}

abbrev list_or : List TcpConnection → Option (List TcpConnection) → List TcpConnection
list_or d none = d
list_or d (some l) = l

placed-linked :
    (c : TcpConnection) (ts us : List TcpConnection)
    → place_conn c ts ≡ some us
    → linked (fds us) c.cli_fd ≡ true
unfolding place_conn linked
placed-linked c [] us e = absurd (ground arith)
placed-linked c (t ∷ ts) us e = elim (Bool-cases (t.cli_fd == 0)) [
  | inl free ↦
      let same : (c ∷ ts) ≡ us = ap (list_or us) (rw free at e) in
      subst (λ l. linked (fds l) c.cli_fd ≡ true) same (rw (==_refl c.cli_fd) refl)
  | inr used ↦ elim (Option-cases (place_conn c ts)) [
    | inl full ↦ absurd (ground arith)
    | inr (vs, placed) ↦
        let same : (t ∷ vs) ≡ us = ap (list_or us) (rw (used, placed) at e) in
        subst (λ l. linked (fds l) c.cli_fd ≡ true) same
          (grind (arith, placed-linked c ts vs placed))
  ]
]

-- The descriptor is one of the connections, or was closed.
abbrev pub Kept : ℕ → Io → Type 0
Kept fd io = (linked (conns io) fd ≡ true) ⊎ Made (Call.close_file fd) io.calls

module _ (os : Os) where
  turn_away-Kept : (fd : ℕ) (io : Io) → Kept fd (turn_away os fd io)
  unfolding turn_away
  turn_away-Kept fd io = inr (0, refl)

  place-Kept : (c : Accepted) (io : Io) → Kept c.fd (place os c io)
  unfolding place
  place-Kept c io =
      let t : TcpConnection = record {
        cli_addr = c.ip;
        cli_port = c.port;
        cli_fd = c.fd;
        last_contact = os.time io.calls;
      } in
      elim (Option-cases (place_conn t io.tcpsocks)) [
        | inl full ↦ rw (full, place) (turn_away-Kept c.fd (tnfs_event_unregister os c.fd io))
        | inr (ts, e) ↦ rw (e, place) (inl (placed-linked t io.tcpsocks ts e))
      ]

  welcome-Kept : (c : Accepted) (io : Io) → Kept c.fd (welcome os c io)
  unfolding welcome
  welcome-Kept c io =
      let r = tnfs_event_register os c.fd (apply_keepalive_options os c.fd io) in
      elim (Bool-cases r.0) [
        | inl registered ↦ rw (registered, welcome) (place-Kept c r.1)
        | inr not_registered ↦ rw (not_registered, welcome) (turn_away-Kept c.fd r.1)
      ]

  accept_end-Kept :
      (fd : ℕ) (c : Accepted) (r : Result Accepted) (p : Acceptor)
      → r ≡ ok c
      → Kept c.fd ((accept_end os fd r p).server).io
  accept_end-Kept fd c r p e =
      subst (λ q. Kept c.fd ((accept_end os fd q p).server).io) (sym e)
        (welcome-Kept c (p.server).io)

  -- A descriptor that `accept` gives is one of the connections afterwards, or was closed: also
  -- where it cannot be watched, or where every slot is taken.
  pub tcp_accept-Kept :
      (fd : ℕ) (c : Accepted) (p : Acceptor)
      → os.accept (p.server).calls fd ≡ ok c
      → Kept c.fd ((tcp_accept os fd p).server).io
  unfolding tcp_accept
  tcp_accept-Kept fd c p e = accept_end-Kept fd c (os.accept (p.server).calls fd) _ e

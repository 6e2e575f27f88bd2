-- ===== src/Server/Sockets.antt =====
-- src/datagram.c, `tnfs_sockinit` and `tnfs_sockclose`: the two sockets that the daemon listens on.
use tnfsd.Base.{ℕ, Option, none, some, ◌∷◌, ◌%◌, ◌^◌, ◌≡◌, refl, ap, subst}
use tnfsd.Os.{Os, Call, SockOpt, dgram, stream, Result, ok, err}
use tnfsd.Tnfs.{Io, did, asked}
use tnfsd.Sessions.Closing.{Made}
use tnfsd.Server.Connections.{Listeners, closes, opens_dev_null, descriptor}

-- What `tnfs_sockinit` leaves: the sockets and the descriptor held back, or nothing for -1.
pub record Opened : Type 0 where
  pub listeners : Option (Listeners × Option ℕ)
  pub io : Io

module _ (os : Os) where
  unfoldable pub tnfs_sockclose : Listeners → Io → Io
  tnfs_sockclose at io = closes os at.sockfd (closes os at.tcplistenfd io)

  -- From the second `bind` on
  unfoldable pub listens : Listeners → Result (Unit {0}) → Io → Opened
  unfolding tnfs_sockclose
  listens at (err e) io = record { listeners = none; io = tnfs_sockclose at io }
  listens at (ok u) io =
      let io1 = did (Call.listen at.tcplistenfd 5) (os.listen io.calls at.tcplistenfd 5) io in
      let (reserve, io2) = opens_dev_null os io1 in
      record { listeners = some (at, descriptor os reserve); io = io2 }

  -- From `setsockopt` on
  unfoldable pub reuses : ℕ → Listeners → Result (Unit {0}) → Io → Opened
  unfolding listens tnfs_sockclose
  reuses port at (err e) io = record { listeners = none; io = tnfs_sockclose at io }
  reuses port at (ok u) io =
      let io1 = asked Call.ignore_sigpipe io in
      let r = os.bind io1.calls at.tcplistenfd port in
      listens at r (did (Call.bind at.tcplistenfd port) r io1)

  -- From the second `socket` on
  unfoldable pub has_tcp : ℕ → ℕ → Result ℕ → Io → Opened
  unfolding reuses
  has_tcp port sockfd (err e) io = record { listeners = none; io = closes os sockfd io }
  has_tcp port sockfd (ok fd) io =
      let at : Listeners = record { sockfd = sockfd; tcplistenfd = fd } in
      let r = os.setsockopt io.calls fd SockOpt.reuseaddr 1 in
      reuses port at r (did (Call.setsockopt fd SockOpt.reuseaddr 1) r io)

  -- From the first `bind` on
  unfoldable pub is_bound : ℕ → ℕ → Result (Unit {0}) → Io → Opened
  unfolding has_tcp
  is_bound port sockfd (err e) io = record { listeners = none; io = closes os sockfd io }
  is_bound port sockfd (ok u) io =
      let r = os.socket io.calls stream in has_tcp port sockfd r (did (Call.socket stream) r io)

  unfoldable pub has_udp : ℕ → Result ℕ → Io → Opened
  unfolding is_bound
  has_udp port (err e) io = record { listeners = none; io = io }
  has_udp port (ok fd) io =
      let r = os.bind io.calls fd port in is_bound port fd r (did (Call.bind fd port) r io)

  -- The port is a `uint16_t` to `htons`.
  unfoldable pub tnfs_sockinit : ℕ → Io → Opened
  unfolding has_udp
  tnfs_sockinit port io =
      let r = os.socket io.calls dgram in has_udp (port % 2 ^ 16) r (did (Call.socket dgram) r io)

  -- Where it fails, what it had opened is closed.
  abbrev Undone : ℕ → Opened → Type 0
  Undone fd o = o.listeners ≡ none → Made (Call.close_file fd) (o.io).calls

  listens-Undone :
      (at : Listeners) (r : Result (Unit {0})) (io : Io)
      → Undone at.sockfd (listens at r io) × Undone at.tcplistenfd (listens at r io)
  unfolding listens tnfs_sockclose
  listens-Undone at (err e) io = (λ f. (0, refl), λ f. (1, refl))
  listens-Undone at (ok u) io = (λ f. absurd (cc f), λ f. absurd (cc f))

  reuses-Undone :
      (port : ℕ) (at : Listeners) (r : Result (Unit {0})) (io : Io)
      → Undone at.sockfd (reuses port at r io) × Undone at.tcplistenfd (reuses port at r io)
  unfolding reuses tnfs_sockclose
  reuses-Undone port at (err e) io = (λ f. (0, refl), λ f. (1, refl))
  reuses-Undone port at (ok u) io = listens-Undone at _ _

  has_tcp-Undone :
      (port sockfd : ℕ) (r : Result ℕ) (io : Io)
      → Undone sockfd (has_tcp port sockfd r io)
        × ((fd : ℕ) → r ≡ ok fd → Undone fd (has_tcp port sockfd r io))
  unfolding has_tcp
  has_tcp-Undone port sockfd (err e) io = (λ f. (0, refl), λ fd f. absurd (cc f))
  has_tcp-Undone port sockfd (ok fd) io =
      let at : Listeners = record { sockfd = sockfd; tcplistenfd = fd } in
      let both = reuses-Undone port at (os.setsockopt io.calls fd SockOpt.reuseaddr 1) _ in
      (both.0, λ g e. subst (λ k. Undone k (has_tcp port sockfd (ok fd) io)) (ap or_zero e) both.1)
    where
      or_zero : Result ℕ → ℕ
      or_zero (ok n) = n
      or_zero (err e) = 0

  is_bound-Undone :
      (port sockfd : ℕ) (r : Result (Unit {0})) (io : Io)
      → Undone sockfd (is_bound port sockfd r io)
        × ((fd : ℕ)
            → r ≡ ok tt
            → os.socket io.calls stream ≡ ok fd
            → Undone fd (is_bound port sockfd r io))
  unfolding is_bound
  is_bound-Undone port sockfd (err e) io = (λ f. (0, refl), λ fd b. absurd (cc b))
  is_bound-Undone port sockfd (ok u) io =
      let r = os.socket io.calls stream in
      let both = has_tcp-Undone port sockfd r (did (Call.socket stream) r io) in
      (both.0, λ fd b e. both.1 fd e)

  sockinit-Undone :
      (port : ℕ) (io : Io) (udp : ℕ)
      → os.socket io.calls dgram ≡ ok udp
      → Undone udp (tnfs_sockinit port io)
        × ((tcp : ℕ)
            → os.bind (Call.socket dgram ∷ io.calls) udp (port % 2 ^ 16) ≡ ok tt
            → os.socket (Call.bind udp (port % 2 ^ 16) ∷ Call.socket dgram ∷ io.calls) stream
              ≡ ok tcp
            → Undone tcp (tnfs_sockinit port io))
  unfolding tnfs_sockinit has_udp
  sockinit-Undone port io udp e =
      let p = port % 2 ^ 16 in
      let io1 = did (Call.socket dgram) (ok udp) io in
      let r = os.bind io1.calls udp p in
      rw (e, has_udp) (is_bound-Undone p udp r (did (Call.bind udp p) r io1))

  -- Where the set-up fails once there is a socket for datagrams, that socket is closed.
  pub tnfs_sockinit-sockfd :
      (port : ℕ) (io : Io) (udp : ℕ)
      → os.socket io.calls dgram ≡ ok udp
      → (tnfs_sockinit port io).listeners ≡ none
      → Made (Call.close_file udp) ((tnfs_sockinit port io).io).calls
  tnfs_sockinit-sockfd port io udp e fails = (sockinit-Undone port io udp e).0 fails

  -- Where the set-up fails once there are both sockets, both are closed.
  pub tnfs_sockinit-Made :
      (port : ℕ) (io : Io) (udp tcp : ℕ)
      → os.socket io.calls dgram ≡ ok udp
      → os.bind (Call.socket dgram ∷ io.calls) udp (port % 2 ^ 16) ≡ ok tt
      → os.socket (Call.bind udp (port % 2 ^ 16) ∷ Call.socket dgram ∷ io.calls) stream ≡ ok tcp
      → (tnfs_sockinit port io).listeners ≡ none
      → Made (Call.close_file udp) ((tnfs_sockinit port io).io).calls
        × Made (Call.close_file tcp) ((tnfs_sockinit port io).io).calls
  tnfs_sockinit-Made port io udp tcp e b f fails =
      let both = sockinit-Undone port io udp e in (both.0 fails, both.1 tcp b f fails)

-- ===== src/Server/Startup/ReadOnly.antt =====
-- src/tnfsd.c, `tnfsd_start`: a read-only daemon changes no file from its start to its end.
use tnfsd.Base.{
  ℕ, zero, suc, true, not, Option, none, some, Option-cases, List, [], ◌∷◌, ◌%◌, ◌^◌, ◌==◌, ◌≡◌,
  refl, subst, ltb, inl, inr, Bool-cases, length,
}
use tnfsd.Os.{
  Reads, Reads-reads, Os, Call, Rlimit, dgram, Result, ok, err, is_mutating, opens_for_write,
  ReadsOnly, ReadBound,
}
use tnfsd.Tnfs.{Config, Io, did}
use tnfsd.Sessions.{Slots, Server, tnfs_init, close_session, tnfs_free_all_sessions}
use tnfsd.Sessions.Replies.{close_session-Silent}
use tnfsd.Server.Event.{tnfs_event_register, tnfs_event_unregister}
use tnfsd.Server.Connections.{
  Listeners, Acceptor, conn_at, tnfs_close_tcp, close_all, tnfs_close_all_connections,
}
use tnfsd.Server.Sockets.{
  Opened, tnfs_sockclose, listens, reuses, has_tcp, is_bound, has_udp, tnfs_sockinit,
}
use tnfsd.Server.Loop.{loop_start, server_of, passes, loop_end, tnfs_mainloop}
use tnfsd.Server.Loop.Steps.{passes-Reach}
use tnfsd.Server.Loop.Quiet.{ReceivesBytes, Reach-ReadsOnly}
use tnfsd.Server.Startup.{
  Options, Exit, invalid_dir, socket_error, stopped, tnfs_setroot, configured, wanted, raised,
  raise_fd_limit, runs, tnfsd_start, max_root,
}

-- The calls made until the daemon has ended.
abbrev pub exit_calls : Exit → List Call
exit_calls (invalid_dir io) = io.calls
exit_calls (socket_error io) = io.calls
exit_calls (stopped srv) = srv.calls

module _ (os : Os) where
  free_all-ReadsOnly :
      (slots : Slots) (io : Io)
      → ReadsOnly io.calls
      → ReadsOnly (tnfs_free_all_sessions os slots io).1.calls
  unfolding tnfs_free_all_sessions
  free_all-ReadsOnly [] io q = q
  free_all-ReadsOnly (none ∷ rest) io q = free_all-ReadsOnly rest io q
  free_all-ReadsOnly (some s ∷ rest) io q =
      free_all-ReadsOnly rest (close_session os s io)
        ((close_session-Silent Reads Reads-reads os s io).1 q)

  close_tcp-ReadsOnly :
      (i : ℕ) (srv : Server) → ReadsOnly srv.calls → ReadsOnly (tnfs_close_tcp os i srv).calls
  unfolding tnfs_close_tcp tnfs_event_unregister is_mutating
  close_tcp-ReadsOnly i srv q = (refl, (refl, q))

  close_all-ReadsOnly :
      (n i : ℕ) (srv : Server) → ReadsOnly srv.calls → ReadsOnly (close_all os n i srv).calls
  unfolding close_all
  close_all-ReadsOnly zero i srv q = q
  close_all-ReadsOnly (suc n) i srv q =
      elim (Bool-cases (not ((conn_at i srv.tcpsocks).cli_fd == 0))) [
        | inl used ↦
            rw (used, close_all)
              (close_all-ReadsOnly n (suc i) (tnfs_close_tcp os i srv)
                (close_tcp-ReadsOnly i srv q))
        | inr free ↦ rw (free, close_all) (close_all-ReadsOnly n (suc i) srv q)
      ]

  -- The set-up of the sockets
  listens-ReadsOnly :
      (at : Listeners) (r : Result (Unit {0})) (io : Io)
      → ReadsOnly io.calls
      → ReadsOnly ((listens os at r io).io).calls
  unfolding listens tnfs_sockclose is_mutating opens_for_write
  listens-ReadsOnly at (err e) io q = (refl, (refl, q))
  listens-ReadsOnly at (ok u) io q = (refl, (refl, q))

  reuses-ReadsOnly :
      (port : ℕ) (at : Listeners) (r : Result (Unit {0})) (io : Io)
      → ReadsOnly io.calls
      → ReadsOnly ((reuses os port at r io).io).calls
  unfolding reuses tnfs_sockclose is_mutating
  reuses-ReadsOnly port at (err e) io q = (refl, (refl, q))
  reuses-ReadsOnly port at (ok u) io q = listens-ReadsOnly at _ _ (refl, (refl, q))

  has_tcp-ReadsOnly :
      (port sockfd : ℕ) (r : Result ℕ) (io : Io)
      → ReadsOnly io.calls
      → ReadsOnly ((has_tcp os port sockfd r io).io).calls
  unfolding has_tcp is_mutating
  has_tcp-ReadsOnly port sockfd (err e) io q = (refl, q)
  has_tcp-ReadsOnly port sockfd (ok fd) io q = reuses-ReadsOnly port _ _ _ (refl, q)

  is_bound-ReadsOnly :
      (port sockfd : ℕ) (r : Result (Unit {0})) (io : Io)
      → ReadsOnly io.calls
      → ReadsOnly ((is_bound os port sockfd r io).io).calls
  unfolding is_bound is_mutating
  is_bound-ReadsOnly port sockfd (err e) io q = (refl, q)
  is_bound-ReadsOnly port sockfd (ok u) io q = has_tcp-ReadsOnly port sockfd _ _ (refl, q)

  has_udp-ReadsOnly :
      (port : ℕ) (r : Result ℕ) (io : Io)
      → ReadsOnly io.calls
      → ReadsOnly ((has_udp os port r io).io).calls
  unfolding has_udp is_mutating
  has_udp-ReadsOnly port (err e) io q = q
  has_udp-ReadsOnly port (ok fd) io q = is_bound-ReadsOnly port fd _ _ (refl, q)

  sockinit-ReadsOnly :
      (port : ℕ) (io : Io) → ReadsOnly io.calls → ReadsOnly ((tnfs_sockinit os port io).io).calls
  unfolding tnfs_sockinit is_mutating
  sockinit-ReadsOnly port io q =
      let r = os.socket io.calls dgram in
      has_udp-ReadsOnly (port % 2 ^ 16) r (did (Call.socket dgram) r io) (refl, q)

  raised-ReadsOnly :
      (r : Result Rlimit) (io : Io) → ReadsOnly io.calls → ReadsOnly (raised os r io).calls
  unfolding is_mutating
  raised-ReadsOnly (err e) io q = q
  raised-ReadsOnly (ok rl) io q = elim (Bool-cases (ltb rl.rlim_cur (wanted os rl))) [
    | inl low ↦ rw low (refl, (refl, q))
    | inr high ↦ rw high q
  ]

  raise-ReadsOnly : (io : Io) → ReadsOnly io.calls → ReadsOnly (raise_fd_limit os io).calls
  unfolding raise_fd_limit is_mutating
  raise-ReadsOnly io q =
      let r = os.getrlimit io.calls in raised-ReadsOnly r (did Call.getrlimit r io) (refl, q)

  setroot-ReadsOnly :
      (rootdir : List ℕ) (io : Io)
      → ReadsOnly io.calls
      → ReadsOnly (tnfs_setroot os rootdir io).1.calls
  unfolding tnfs_setroot is_mutating
  setroot-ReadsOnly rootdir io q = elim (Bool-cases (ltb max_root (length rootdir))) [
    | inl long ↦ rw long q
    | inr fits ↦ rw fits (refl, q)
  ]

module _ (os : Os) (bound : ReadBound os) (bytes : ReceivesBytes os) where
  loop_end-ReadsOnly :
      (conf : Config) (at : Listeners) (srv : Server)
      → ReadsOnly srv.calls
      → ReadsOnly (loop_end os conf at srv).calls
  unfolding loop_end tnfs_close_all_connections
  loop_end-ReadsOnly conf at srv q =
      let closed = tnfs_close_all_connections os srv in
      free_all-ReadsOnly os closed.slist closed.io
        (close_all-ReadsOnly os (length srv.tcpsocks) 0 srv q)

  loop_start-ReadsOnly :
      (conf : Config) (at : Listeners) (p : Acceptor)
      → ReadsOnly (p.server).calls
      → ReadsOnly (server_of (loop_start os conf at p)).calls
  unfolding loop_start tnfs_event_register is_mutating
  loop_start-ReadsOnly conf at p q = (refl, (refl, q))

  passes-ReadsOnly :
      (conf : Config) (at : Listeners) (n : ℕ) (p : Acceptor)
      → conf.read_only ≡ true
      → ReadsOnly (p.server).calls
      → ReadsOnly (server_of (passes os conf at n (loop_start os conf at p)).loop).calls
  passes-ReadsOnly conf at n p r q =
      Reach-ReadsOnly os conf bound bytes at r (passes-Reach os conf at n (loop_start os conf at p))
        (loop_start-ReadsOnly conf at p q)

  -- What an exit has called, if there is one, changes no file.
  abbrev Clean : Option Exit → Type 0
  Clean none = Unit {0}
  Clean (some e) = ReadsOnly (exit_calls e)

  runs-Clean :
      (n : ℕ) (conf : Config) (o : Opened)
      → conf.read_only ≡ true
      → ReadsOnly (o.io).calls
      → Clean (runs os n conf o)
  unfolding runs tnfs_mainloop
  runs-Clean n conf o r q = elim (Option-cases o.listeners) [
    | inl failed ↦ rw (failed, runs) q
    | inr ((at, reserve), e) ↦
        let p : Acceptor = record {
          server = record { slist = tnfs_init; io = o.io };
          accept_reserve_fd = reserve;
        } in
        let end = passes os conf at n (loop_start os conf at p) in
        let all = passes-ReadsOnly conf at n p r q in
        elim (Bool-cases end.goes_on) [
          | inl on ↦ rw (e, on, runs) tt
          | inr off ↦ rw (e, off, runs) (loop_end-ReadsOnly conf at (server_of end.loop) all)
        ]
  ]

  start-Clean :
      (n : ℕ) (bootsector : List ℕ) (opt : Options) (io : Io)
      → opt.read_only ≡ true
      → ReadsOnly io.calls
      → Clean (tnfsd_start os n bootsector opt io)
  unfolding tnfsd_start
  start-Clean n bootsector opt io r q =
      let s = tnfs_setroot os opt.path io in
      let q' = setroot-ReadsOnly os opt.path io q in
      elim (Option-cases s.0) [
        | inl refused ↦ rw (refused, tnfsd_start) q'
        | inr (roots, e) ↦
            rw (e, tnfsd_start)
              (runs-Clean n (configured os bootsector opt roots)
                (tnfs_sockinit os opt.port (raise_fd_limit os s.1)) r
                (sockinit-ReadsOnly os opt.port (raise_fd_limit os s.1)
                  (raise-ReadsOnly os s.1 q')))
      ]

  -- If `read` gives no more bytes than it is asked for and what is received is bytes: a daemon
  -- that is started read-only, with no file or directory changed before, has created, written,
  -- truncated, renamed or removed none when it ends, however it ends, be it that the root is
  -- refused, that a socket cannot be set up, or that the main loop is stopped or fails after any
  -- number of passes.
  pub tnfsd_start-ReadsOnly :
      (n : ℕ) (bootsector : List ℕ) (opt : Options) (io : Io) (e : Exit)
      → opt.read_only ≡ true
      → ReadsOnly io.calls
      → tnfsd_start os n bootsector opt io ≡ some e
      → ReadsOnly (exit_calls e)
  tnfsd_start-ReadsOnly n bootsector opt io e r q ends =
      subst Clean ends (start-Clean n bootsector opt io r q)

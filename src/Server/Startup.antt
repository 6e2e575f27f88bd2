-- ===== src/Server/Startup.antt =====
-- src/tnfsd.c, `tnfsd_start`; src/directory.c, `tnfs_setroot`; src/session.c, `tnfs_init`. The epoll
-- instance and the log lines are left out.
pub mod ReadOnly
pub mod Limits
use tnfsd.Base.{ℕ, Bool, Option, none, some, List, ◌||◌, ◌==◌, ltb, if◌then◌else◌, length}
use tnfsd.Os.{Os, Call, Rlimit, Result, ok, err}
use tnfsd.Tnfs.{Config, Io, did}
use tnfsd.Strl.{strlcpy}
use tnfsd.Sessions.{Server, tnfs_init}
use tnfsd.Server.Connections.{Listeners, Acceptor}
use tnfsd.Server.Sockets.{Opened, tnfs_sockinit}
use tnfsd.Server.Loop.{tnfs_mainloop}

abbrev pub max_root : ℕ
max_root = 128

-- `root` and `realroot`, if the directory is accepted
abbrev pub Roots : Type 0
Roots = List ℕ × List ℕ

abbrev resolved : List ℕ → Result (List ℕ) → Option Roots
resolved rootdir (err e) = none
resolved rootdir (ok real) = some (strlcpy rootdir max_root, real)

-- What the daemon is started with
pub record Options : Type 0 where
  pub path : List ℕ
  pub port : ℕ
  pub read_only : Bool
  pub atari_mode : Bool

-- How `tnfsd_start` ends: with an error, or when the main loop has ended. Nothing, if that goes on.
pub data Exit : Type 0 where
  invalid_dir socket_error : Io → Exit
  stopped : Server → Exit

module _ (os : Os) where
  unfoldable pub tnfs_setroot : List ℕ → Io → Option Roots × Io
  tnfs_setroot rootdir io =
      let r = os.realpath io.calls rootdir in
      if ltb max_root (length rootdir)
      then (none, io)
      else (resolved rootdir r, did (Call.realpath rootdir) r io)

  -- `auth_init` and `atari_init`, with the boot sectors that the build makes
  abbrev pub configured : List ℕ → Options → Roots → Config
  configured bootsector opt roots = record {
    root = roots.0;
    realroot = roots.1;
    read_only = opt.read_only;
    atari_enabled = opt.atari_mode;
    bootsector = bootsector;
  }

  -- What is asked for, at most the hard limit and 65536
  abbrev pub wanted : Rlimit → ℕ
  wanted rl =
      if rl.rlim_max == os.rlim_infinity || ltb 65536 rl.rlim_max then 65536 else rl.rlim_max

  -- The limit is read again for the log.
  abbrev pub raised : Result Rlimit → Io → Io
  raised (err e) io = io
  raised (ok rl) io =
      if ltb rl.rlim_cur (wanted rl)
      then (let l = record rl { rlim_cur = wanted rl } in
          let io' = did (Call.setrlimit l) (os.setrlimit io.calls l) io in
          did Call.getrlimit (os.getrlimit io'.calls) io')
      else io

  unfoldable pub raise_fd_limit : Io → Io
  raise_fd_limit io = let r = os.getrlimit io.calls in raised r (did Call.getrlimit r io)

  -- From `tnfs_sockinit` on, in `n` passes of the main loop at most
  unfoldable pub runs : ℕ → Config → Opened → Option Exit
  unfolding tnfs_mainloop tnfs_init
  runs n conf o = elim o.listeners [
    | none ↦ some (Exit.socket_error o.io)
    | some (at, reserve) ↦
        let p : Acceptor = record {
          server = record { slist = tnfs_init; io = o.io };
          accept_reserve_fd = reserve;
        } in
        elim (tnfs_mainloop os conf at n p) [ none ↦ none | some srv ↦ some (Exit.stopped srv) ]
  ]

  unfoldable pub tnfsd_start : ℕ → List ℕ → Options → Io → Option Exit
  unfolding tnfs_setroot runs tnfs_sockinit raise_fd_limit
  tnfsd_start n bootsector opt io =
      let (roots, io') = tnfs_setroot opt.path io in
      elim roots [
        | none ↦ some (Exit.invalid_dir io')
        | some r ↦
            runs n (configured bootsector opt r) (tnfs_sockinit os opt.port (raise_fd_limit io'))
      ]

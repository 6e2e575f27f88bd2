-- ===== src/Tests/Start.antt =====
-- The process from its arguments on, where the port is taken for connections; and the table of
-- descriptors.
use tnfsd.Base.{
  ℕ, Bool, true, false, not, ◌&&◌, ltb, some, List, [], ◌∷◌, ◌≡◌, ◌≤◌, ◌<◌, ◌⊎◌, refl, ap, subst,
  arith, length,
}
use tnfsd.Base.Int.{ℤ, pos}
use tnfsd.Os.{Os, Rlimit, Call, Result, ok, err, ReadsOnly, Selected}
use tnfsd.Tnfs.{Io}
use tnfsd.Main.{Parsed, nothing_given, take_option, take_options, ran, main}
use tnfsd.Main.Chroot.{needs, enter_jail}
use tnfsd.Main.Last.{said, take_options_lem}
use tnfsd.Main.Started.{is_started, RunsJailed, main-Jailed}
use tnfsd.Main.ReadOnly.{ended_calls, main-ReadsOnly}
use tnfsd.Server.Startup.Limits.{raise_fd_limit-min}
use tnfsd.Server.Startup.{Exit, raise_fd_limit}
use tnfsd.Server.Sockets.{tnfs_sockinit}
use tnfsd.Server.Event.{tnfs_event_is_active}
use tnfsd.Server.Event.Select.{ready_fds, select_register, select_set, select_wait}
use tnfsd.Server.Event.Select.Registered.{
  Request, add, remove, registered, serve, watched, Fits, has_free, registered-watched,
}
use tnfsd.Server.Event.Select.Waiting.{CountsReady, AddsNew, fds_of, select_wait-watched}
use tnfsd.Tests.{start, empty_disk}
use tnfsd.Tests.Sockets.{taken, taken-ReadBound, taken-ReceivesBytes}

-- "-u x -r -u t -g s /d"
abbrev arguments : Parsed
arguments = record {
  opts =
      (b'u', b'x' ∷ [])
      ∷ (b'r', [])
      ∷ (b'u', b't' ∷ [])
      ∷ (b'g', b's' ∷ [])
      ∷ (b'p', b'8' ∷ [])
      ∷ [];
  operands = (b'/' ∷ b'd' ∷ []) ∷ [];
}

abbrev eight : List ℕ → ℤ
eight v = pos 8

-- The process has given up its privileges, looked up the root and raised the limit.
abbrev before_sockets : Io
before_sockets = record start {
  calls =
      Call.realpath (b'/' ∷ [])
      ∷ Call.getgid
      ∷ Call.getuid
      ∷ Call.setuid 1000
      ∷ Call.setgid 100
      ∷ Call.setgroups []
      ∷ Call.chdir (b'/' ∷ [])
      ∷ Call.chroot (b'/' ∷ b'd' ∷ [])
      ∷ Call.getgrnam (b's' ∷ [])
      ∷ Call.getpwnam (b't' ∷ [])
      ∷ [];
}

abbrev jail_end : Exit
jail_end = Exit.socket_error ((tnfs_sockinit taken 8 (raise_fd_limit taken before_sockets)).io)

ends_in_jail : main taken eight (λ argv. arguments) 2 [] [] start ≡ some (ran jail_end)
unfolding main take_option needs enter_jail
ends_in_jail = refl

main-Jailed_example :
    RunsJailed taken eight arguments 2 [] start
      (b't' ∷ [])
      (main taken eight (λ argv. arguments) 2 [] [] start)
main-Jailed_example =
    main-Jailed taken eight (λ argv. arguments) 2 [] [] start (b't' ∷ [])
      (ap is_started ends_in_jail) refl

main-ReadsOnly_example : ReadsOnly (ended_calls (ran jail_end))
main-ReadsOnly_example =
    main-ReadsOnly taken eight taken-ReadBound taken-ReceivesBytes (λ argv. arguments) 2 [] [] start
      (ran jail_end) refl tt ends_in_jail

take_options_lem_example : take_options arguments.opts nothing_given ≡ some (said arguments.opts)
take_options_lem_example = take_options_lem arguments.opts

-- 3 and 5 are added and 3 is removed; `select` finds 3, 4 and 5 ready.
abbrev asked_for : List Request
asked_for = remove 3 ∷ add 5 ∷ add 3 ∷ []

abbrev ready : ℕ → Bool
ready fd = not (ltb fd 3) && ltb fd 6

abbrev counting : Os
counting = record empty_disk {
  select = λ h fds t.
      ok (record { count = length (ready_fds ready fds); readable = ready; failed = λ fd. false });
}

abbrev selected : Selected → Result Selected → Selected
selected d (ok s) = s
selected d (err e) = d

counting-CountsReady : CountsReady counting
counting-CountsReady h fds t sel once answer =
    subst (λ s. length (ready_fds s.readable fds) ≤ s.count) (ap (selected sel) answer)
      (omega arith)

asked_for-AddsNew : AddsNew asked_for
unfolding watched serve select_register
asked_for-AddsNew = (refl, (refl, tt))

registered-watched_example :
    (registered (serve asked_for) 5 ≡ watched asked_for 5)
    × Fits 1024 (serve asked_for)
    × ((select_register 7 (serve asked_for)).0 ≡ (has_free (serve asked_for) && ltb 7 1024))
registered-watched_example = registered-watched asked_for 7 5

select_wait-watched_example :
    tnfs_event_is_active (fds_of (select_wait counting 1 (serve asked_for) start).0) 5
    ≡ (watched asked_for 5 && true)
select_wait-watched_example =
    select_wait-watched counting asked_for 1 5 start
      (record {
        count = length (ready_fds ready (select_set (serve asked_for)));
        readable = ready;
        failed = λ fd. false;
      })
      counting-CountsReady asked_for-AddsNew (omega arith) refl

raise_fd_limit-min_example :
    ((4096 ≤ 1024) × ((raise_fd_limit empty_disk start).calls ≡ Call.getrlimit ∷ []))
    ⊎ ((l : Rlimit) × (1024 < l.rlim_cur)
        × (l.rlim_cur ≡ 4096)
        × (l.rlim_max ≡ 4096)
        × ((raise_fd_limit empty_disk start).calls
            ≡ Call.getrlimit ∷ Call.setrlimit l ∷ Call.getrlimit ∷ []))
raise_fd_limit-min_example =
    raise_fd_limit-min empty_disk start (record { rlim_cur = 1024; rlim_max = 4096 }) (omega arith)
      refl

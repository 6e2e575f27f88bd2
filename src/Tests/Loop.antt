-- ===== src/Tests/Loop.antt =====
-- The main loop and the connections, in concrete states.
use tnfsd.Base.{ℕ, suc, true, none, some, List, [], ◌∷◌, ◌≤◌, ◌≡◌, refl, arith, map, inr, All}
use tnfsd.Os.{Os, Call, ok, sends, ReadsOnly}
use tnfsd.Auth.{is_cmd_allowed}
use tnfsd.Endian.{tnfs16uint}
use tnfsd.Server.Refusals.{tnfs_decode-refusal}
use tnfsd.Server.Loop.Quiet.{IsByte, ReceivesBytes, Step-sends, Reach-ReadsOnly}
use tnfsd.Server.Loop.Accepting.{Kept, tcp_accept-Kept}
use tnfsd.Tnfs.{Io, fresh_session}
use tnfsd.Shape.{Keeps}
use tnfsd.Sessions.{Server, tnfs_init, tnfs_findsession_sid}
use tnfsd.Sessions.Table.{count_ip, has_sid}
use tnfsd.Sessions.Ids.{Distinct}
use tnfsd.Sessions.Mount.{tnfs_mount}
use tnfsd.Sessions.Sound.{linked}
use tnfsd.Sessions.Limit.{Limited, tnfs_mount-Limited}
use tnfsd.Server.Tables.{cmdfunc}
use tnfsd.Server.Decode.{tnfs_decode}
use tnfsd.Server.Sound.{IsGood, tnfs_decode-IsGood}
use tnfsd.Server.Keeps.{cmdfunc-Keeps}
use tnfsd.File.Names.{tnfs_unlink}
use tnfsd.Server.Connections.{
  Listeners, Acceptor, tcp_accept, tnfs_handle_tcpmsg, tnfs_close_stale_connections,
}
use tnfsd.Server.Loop.{loop_start, server_of, passes}
use tnfsd.Server.Loop.Steps.{Reach, here, next, message, passes-Reach}
use tnfsd.Server.Loop.Invariant.{Reach-IsGood}
use tnfsd.Server.Loop.Started.{passes-IsGood}
use tnfsd.Server.Loop.Closing.{unless_stale, tnfs_close_stale_connections-map}
use tnfsd.Tests.{
  empty_disk, empty_disk-ReadBound, settings, start, mounted, client, mount_data, header,
}

abbrev sockets : Listeners
sockets = record { sockfd = 3; tcplistenfd = 4 }

-- a server that has just been started
abbrev new_server : Acceptor
new_server = record {
  server = record { slist = tnfs_init; io = start };
  accept_reserve_fd = some 5;
}

-- two connections, one of them silent for long, and a session on the other
abbrev talking : Io
talking = record start {
  tcpsocks =
      record { cli_addr = 7; cli_port = 1; cli_fd = 8; last_contact = 100 }
      ∷ record { cli_addr = 7; cli_port = 2; cli_fd = 9; last_contact = 995 }
      ∷ [];
}

abbrev connected : Server
connected = record {
  slist = none ∷ some (record fresh_session { sid = 0x1234; ipaddr = 7; cli_fd = 9 }) ∷ none ∷ [];
  io = talking;
}

connected-Distinct : Distinct connected.slist
unfolding Distinct has_sid
connected-Distinct = (tt, ((refl, tt), (tt, tt)))

connected-Limited : (ip : ℕ) → Limited (suc ip) connected.slist
unfolding count_ip fresh_session
connected-Limited ip = ground arith

connected-IsGood : IsGood connected
unfolding IsGood fresh_session linked
connected-IsGood = (
  connected-Distinct,
  connected-Limited,
  (tt, ((refl, refl, refl, (refl, omega arith), refl), (tt, tt))),
)

passes-IsGood_example : IsGood (
    server_of
      (passes empty_disk settings sockets 3
        (loop_start empty_disk settings sockets new_server)).loop)
passes-IsGood_example = passes-IsGood empty_disk settings sockets 3 new_server refl

-- the client hangs up
Reach-IsGood_example : IsGood (tnfs_handle_tcpmsg empty_disk settings 1 connected)
Reach-IsGood_example =
    Reach-IsGood empty_disk settings sockets connected-IsGood (next here (message 1 connected refl))

passes-Reach_example : Reach empty_disk settings sockets connected (
    server_of
      (passes empty_disk settings sockets 3 (record {
        acceptor = record { server = connected; accept_reserve_fd = none };
        last_stats_report = 0;
        last_session_sweep = 0;
      })).loop)
passes-Reach_example = passes-Reach empty_disk settings sockets 3 (record {
  acceptor = record { server = connected; accept_reserve_fd = none };
  last_stats_report = 0;
  last_session_sweep = 0;
})

tnfs_mount-Limited_example :
    Limited 7
      (tnfs_mount empty_disk settings (record header { ipaddr = 7 }) mount_data connected).slist
tnfs_mount-Limited_example =
    tnfs_mount-Limited empty_disk settings (record header { ipaddr = 7 }) mount_data 7 connected
      refl (connected-Limited 6)

connected_9 : linked (8 ∷ 9 ∷ []) 9 ≡ true
unfolding linked
connected_9 = refl

-- the session's client asks for a directory
tnfs_decode-IsGood_example :
    IsGood (
      tnfs_decode empty_disk settings client 9 6 (0x34 ∷ 0x12 ∷ 1 ∷ 0x10 ∷ b'/' ∷ 0 ∷ []) connected)
tnfs_decode-IsGood_example =
    tnfs_decode-IsGood empty_disk settings client 9 6 (0x34 ∷ 0x12 ∷ 1 ∷ 0x10 ∷ b'/' ∷ 0 ∷ [])
      connected connected_9 connected-IsGood

unlink_cmd : cmdfunc empty_disk settings header 0x26 ≡ some (tnfs_unlink empty_disk settings header)
unfolding cmdfunc
unlink_cmd = refl

cmdfunc-Keeps_example :
    Keeps
      (record { io = start; sess = mounted })
      (tnfs_unlink empty_disk settings header mount_data (record { io = start; sess = mounted }))
cmdfunc-Keeps_example =
    cmdfunc-Keeps empty_disk settings header 0x26 (tnfs_unlink empty_disk settings header)
      mount_data (record { io = start; sess = mounted }) unlink_cmd

tnfs_close_stale_connections-map_example :
    (tnfs_close_stale_connections empty_disk connected).tcpsocks
    ≡ map (unless_stale 1000) talking.tcpsocks
tnfs_close_stale_connections-map_example = tnfs_close_stale_connections-map empty_disk connected

-- the system reads, and the client hangs up
nothing_received :
    (h : List Call) (fd n : ℕ) (bytes : List ℕ)
    → empty_disk.recv h fd n ≡ ok bytes
    → All IsByte bytes
nothing_received h fd n [] e = tt
nothing_received h fd n (b ∷ bs) e = absurd (ground arith)

pub empty_disk-ReceivesBytes : ReceivesBytes empty_disk
empty_disk-ReceivesBytes = (λ h fd n d e. absurd (cc e), nothing_received, λ h. tt)

Step-sends_example :
    sends (tnfs_handle_tcpmsg empty_disk settings 1 connected).calls ≤ suc (sends connected.calls)
Step-sends_example =
    Step-sends empty_disk settings empty_disk-ReadBound empty_disk-ReceivesBytes sockets
      (message 1 connected refl)

Reach-ReadsOnly_example : ReadsOnly (tnfs_handle_tcpmsg empty_disk settings 1 connected).calls
Reach-ReadsOnly_example =
    Reach-ReadsOnly empty_disk settings empty_disk-ReadBound empty_disk-ReceivesBytes sockets refl
      (next here (message 1 connected refl)) tt

-- a request for a session that there is not
no_session : tnfs_findsession_sid (tnfs16uint (0x35 ∷ 0x12 ∷ 6 ∷ 0x10 ∷ [])) connected.slist ≡ none
unfolding tnfs_findsession_sid tnfs16uint
no_session = refl

opendir_allowed : is_cmd_allowed true 0x10 ≡ true
unfolding is_cmd_allowed
opendir_allowed = refl

tnfs_decode-refusal_example :
    ((tnfs_decode empty_disk settings client 9 4 (0x35 ∷ 0x12 ∷ 6 ∷ 0x10 ∷ []) connected).slist
      ≡ connected.slist)
    × ((tnfs_decode empty_disk settings client 9 4 (0x35 ∷ 0x12 ∷ 6 ∷ 0x10 ∷ []) connected).calls
        ≡ Call.send 9 (0 ∷ 0 ∷ 6 ∷ 0x10 ∷ 0xFF ∷ []) ∷ connected.calls)
tnfs_decode-refusal_example =
    tnfs_decode-refusal empty_disk settings client 9 4 (0x35 ∷ 0x12 ∷ 6 ∷ 0x10 ∷ []) connected true
      opendir_allowed (inr (refl, no_session))

-- a system in which a client connects
abbrev ringing : Os
ringing = record empty_disk { accept = λ h fd. ok (record { fd = 10; ip = 7; port = 3 }) }

tcp_accept-Kept_example :
    Kept 10
      ((tcp_accept ringing 4 (record { server = connected; accept_reserve_fd = none })).server).io
tcp_accept-Kept_example =
    tcp_accept-Kept ringing 4 (record { fd = 10; ip = 7; port = 3 })
      (record { server = connected; accept_reserve_fd = none }) refl

-- ===== src/Tests/Sockets.antt =====
-- A system in which the port is taken for connections.
use tnfsd.Base.{◌==◌, if◌then◌else◌, ℕ, none, ◌≡◌, refl}
use tnfsd.Os.{Os, Call, SockType, dgram, stream, Result, ok, err, Errno, ReadBound}
use tnfsd.Server.Sockets.{tnfs_sockinit, tnfs_sockinit-Made}
use tnfsd.Sessions.Closing.{Made}
use tnfsd.Server.Loop.Quiet.{ReceivesBytes}
use tnfsd.Tests.{empty_disk, empty_disk-ReadBound, start}
use tnfsd.Tests.Loop.{empty_disk-ReceivesBytes}

abbrev two_sockets : SockType → Result ℕ
two_sockets dgram = ok 3
two_sockets stream = ok 4

abbrev binds_first : ℕ → Result (Unit {0})
binds_first fd = if fd == 3 then ok tt else err Errno.eacces

abbrev pub taken : Os
taken = record empty_disk { socket = λ h t. two_sockets t; bind = λ h fd p. binds_first fd }

pub taken-ReadBound : ReadBound taken
taken-ReadBound h fd n bytes e = empty_disk-ReadBound h fd n bytes e

pub taken-ReceivesBytes : ReceivesBytes taken
taken-ReceivesBytes = empty_disk-ReceivesBytes

cannot_bind : (tnfs_sockinit taken 16384 start).listeners ≡ none
unfolding tnfs_sockinit
cannot_bind = refl

tnfs_sockinit-Made_example :
    Made (Call.close_file 3) ((tnfs_sockinit taken 16384 start).io).calls
    × Made (Call.close_file 4) ((tnfs_sockinit taken 16384 start).io).calls
tnfs_sockinit-Made_example = tnfs_sockinit-Made taken 16384 start 3 4 refl refl refl cannot_bind

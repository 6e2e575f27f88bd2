-- ===== src/File.antt =====
-- src/tnfs_file.c: the commands on files. This module has the check of a descriptor that the
-- commands share; its children have the commands.
pub mod Open
pub mod Transfer
pub mod Names
pub mod Device
pub mod Replies
pub mod Keeps
pub mod Calls
use tnfsd.Base.{ℕ, Bool, ◌||◌, [], ◌==◌, ltb, leb, if◌then◌else◌, get_or}
use tnfsd.Os.{Os, Whence, seek_set, seek_cur, seek_end}
use tnfsd.Tnfs.{Session, Header, Buf, Ctx, byte_at, max_fd_per_conn}
use tnfsd.Errortable.{tnfs_ebadfd}
use tnfsd.Send.{reply}

-- `s->fd[*buf]`
abbrev pub fd_at : Session → ℕ → ℕ
fd_at s i = get_or s.fd i 0

unfoldable pub bad_fd : Session → Buf → ℕ → Bool
bad_fd s b propersize =
    ltb b.bufsz propersize || leb max_fd_per_conn (byte_at b 0) || fd_at s (byte_at b 0) == 0

-- The descriptor, or 0 with the error reply sent.
unfoldable pub validate_fd : Os → Header → Buf → ℕ → Ctx → ℕ × Ctx
unfolding bad_fd
validate_fd os hdr b propersize x =
    if bad_fd x.sess b propersize
    then (0, reply os hdr tnfs_ebadfd [] x)
    else (fd_at x.sess (byte_at b 0), x)

unfoldable pub getwhence : ℕ → Whence
getwhence tnfs_whence =
    if tnfs_whence == 1 then seek_cur else if tnfs_whence == 2 then seek_end else seek_set

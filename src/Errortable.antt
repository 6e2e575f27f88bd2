-- ===== src/Errortable.antt =====
-- src/errortable.c: the protocol's status codes, and the table from `errno` to them.
use tnfsd.Base.{ℕ, ◌≡◌, ◌≢◌, ◌<◌, arith}
use tnfsd.Os.{
  Errno, eperm, enoent, eio, enxio, e2big, ebadf, eagain, enomem, eacces, ebusy, eexist, enotdir,
  eisdir, einval, enfile, emfile, efbig, enospc, espipe, erofs, enosys, enametoolong, enotempty,
  eloop, enodata, enostr, eproto, ealready, estale, eintr, econnaborted, enobufs, other,
}

abbrev pub tnfs_success : ℕ
tnfs_success = 0x00

abbrev pub tnfs_eperm : ℕ
tnfs_eperm = 0x01

abbrev pub tnfs_ebadf : ℕ
tnfs_ebadf = 0x06

abbrev pub tnfs_enomem : ℕ
tnfs_enomem = 0x08

abbrev pub tnfs_einval : ℕ
tnfs_einval = 0x0E

abbrev pub tnfs_emfile : ℕ
tnfs_emfile = 0x10

abbrev pub tnfs_enosys : ℕ
tnfs_enosys = 0x16

abbrev pub tnfs_ebadfd : ℕ
tnfs_ebadfd = 0x1C

abbrev pub tnfs_eof : ℕ
tnfs_eof = 0x21

abbrev pub tnfs_ebadsession : ℕ
tnfs_ebadsession = 0xFF

-- `etable`, and `tnfs_error` that looks a value up in it
unfoldable pub tnfs_error : Errno → ℕ
tnfs_error eperm = 0x01
tnfs_error enoent = 0x02
tnfs_error eio = 0x03
tnfs_error enxio = 0x04
tnfs_error e2big = 0x05
tnfs_error ebadf = 0x06
tnfs_error eagain = 0x07
tnfs_error enomem = 0x08
tnfs_error eacces = 0x09
tnfs_error ebusy = 0x0A
tnfs_error eexist = 0x0B
tnfs_error enotdir = 0x0C
tnfs_error eisdir = 0x0D
tnfs_error einval = 0x0E
tnfs_error enfile = 0x0F
tnfs_error emfile = 0x10
tnfs_error efbig = 0x11
tnfs_error enospc = 0x12
tnfs_error espipe = 0x13
tnfs_error erofs = 0x14
tnfs_error enosys = 0x16
tnfs_error enametoolong = 0x15
tnfs_error enotempty = 0x17
tnfs_error eloop = 0x18
tnfs_error enodata = 0x19
tnfs_error enostr = 0x1A
tnfs_error eproto = 0x1B
tnfs_error ealready = 0x1F
tnfs_error estale = 0x20
tnfs_error eintr = 0xFF
tnfs_error econnaborted = 0xFF
tnfs_error enobufs = 0xFF
tnfs_error (other n) = 0xFF

-- Every `errno` has a one-byte status that is neither success nor the end of a file, so no failed
-- call is reported to a client as either.
pub tnfs_error_bounds :
    (e : Errno) → (0 < tnfs_error e) × (tnfs_error e < 256) × (tnfs_error e ≢ tnfs_eof)
unfolding tnfs_error
tnfs_error_bounds e = ground arith

-- Different errors that the table knows have different codes.
pub tnfs_error-injective : (d e : Errno) → tnfs_error d ≢ 0xFF → tnfs_error d ≡ tnfs_error e → d ≡ e
unfolding tnfs_error
tnfs_error-injective d e h p = ground arith

-- ===== src/Os.antt =====
-- The operating system and the C library, which are not part of the repository: what the daemon
-- asks of them, and the answers, as a parameter. An answer may depend on every call made before, so
-- nothing is assumed of it but what a theorem names as a hypothesis.
use tnfsd.Base.{
  ℕ, suc, Bool, true, false, not, ◌||◌, Option, List, [], ◌∷◌, ◌≡◌, if◌then◌else◌, All, length, ◌≤◌,
}
use tnfsd.Base.Int.{ℤ}

-- `errno`. The values that the error table knows, those that the accept of a connection tells apart,
-- and any other.
pub data Errno : Type 0 where
  eperm enoent eio enxio e2big ebadf eagain enomem eacces ebusy eexist enotdir eisdir : Errno
  einval enfile emfile efbig enospc espipe erofs enosys enametoolong enotempty eloop : Errno
  enodata enostr eproto ealready estale eintr econnaborted enobufs : Errno
  other : ℕ → Errno

-- The flags of `open`: O_RDONLY, O_WRONLY or O_RDWR, and the others that the daemon passes.
pub data Access : Type 0 where
  rdonly wronly rdwr : Access

abbrev pub is_rdonly : Access → Bool
is_rdonly rdonly = true
is_rdonly wronly = false
is_rdonly rdwr = false

pub record OpenFlags : Type 0 where
  pub access : Access
  pub append : Bool
  pub creat : Bool
  pub excl : Bool
  pub trunc : Bool

-- SEEK_SET, SEEK_CUR, SEEK_END
pub data Whence : Type 0 where
  seek_set seek_cur seek_end : Whence

-- The options that `setsockopt` sets.
pub data SockOpt : Type 0 where
  reuseaddr keepalive keepidle keepintvl keepcnt user_timeout sndtimeo : SockOpt

-- SOCK_DGRAM and SOCK_STREAM
pub data SockType : Type 0 where
  dgram stream : SockType

-- `struct rlimit`
pub record Rlimit : Type 0 where
  pub rlim_cur : ℕ
  pub rlim_max : ℕ

-- A call with its arguments; a path is the bytes of the string.
pub data Call : Type 0 where
  open_file : List ℕ → OpenFlags → ℕ → Call
  read_file : ℕ → ℕ → Call
  write_file : ℕ → List ℕ → Call
  lseek : ℕ → ℤ → Whence → Call
  close_file : ℕ → Call
  stat : List ℕ → Call
  fstat : ℕ → Call
  unlink : List ℕ → Call
  rename : List ℕ → List ℕ → Call
  mkdir : List ℕ → ℕ → Call
  rmdir : List ℕ → Call
  opendir : List ℕ → Call
  readdir : ℕ → Call
  closedir : ℕ → Call
  seekdir : ℕ → ℕ → Call
  telldir : ℕ → Call
  statvfs : List ℕ → Call
  realpath : List ℕ → Call
  fopen : List ℕ → Call
  nftw : List ℕ → Call
  time : Call
  rand : Call
  malloc : ℕ → Call
  sendto : ℕ → ℕ → List ℕ → Call
  send : ℕ → List ℕ → Call
  recvfrom : ℕ → ℕ → Call
  recv : ℕ → ℕ → Call
  accept : ℕ → Call
  setsockopt : ℕ → SockOpt → ℕ → Call
  socket : SockType → Call
  bind : ℕ → ℕ → Call
  listen : ℕ → ℕ → Call
  ignore_sigpipe : Call
  epoll_add : ℕ → Call
  epoll_del : ℕ → Call
  epoll_wait : ℕ → Call
  kevent_add : ℕ → Call
  kevent_delete : ℕ → Call
  kevent_wait : ℕ → ℕ → Call
  select : List ℕ → ℕ → Call
  getrlimit : Call
  setrlimit : Rlimit → Call
  getpwnam : List ℕ → Call
  getgrnam : List ℕ → Call
  chroot : List ℕ → Call
  chdir : List ℕ → Call
  setgroups : List ℕ → Call
  setgid : ℕ → Call
  setuid : ℕ → Call
  getuid : Call
  getgid : Call

-- What a call returns: a value, or the error value with `errno`.
pub data Result {ℓ} (A : Type ℓ) : Type ℓ where
  ok : A → Result A
  err : Errno → Result A

-- `struct stat`, as far as the daemon reads it.
pub record Stat : Type 0 where
  pub st_mode : ℕ
  pub st_uid : ℕ
  pub st_gid : ℕ
  pub st_size : ℕ
  pub st_atime : ℕ
  pub st_mtime : ℕ
  pub st_ctime : ℕ
  pub is_dir : Bool

-- `struct statvfs`, as far as the daemon reads it.
pub record StatVfs : Type 0 where
  pub f_bsize : ℕ
  pub f_frsize : ℕ
  pub f_blocks : ℕ
  pub f_bavail : ℕ

-- What `accept` returns: the descriptor and the client's address.
pub record Accepted : Type 0 where
  pub fd : ℕ
  pub ip : ℕ
  pub port : ℕ

-- What `recvfrom` returns.
pub record Datagram : Type 0 where
  pub bytes : List ℕ
  pub ip : ℕ
  pub port : ℕ

-- What `select` returns: the number of bits in all sets, and the sets that it has been given, for
-- reading and for errors, as it leaves them.
pub record Selected : Type 0 where
  pub count : ℕ
  pub readable : ℕ → Bool
  pub failed : ℕ → Bool

-- The answer to each call, given all calls before it, the latest first. The last field is the
-- matcher of src/match.c, which is copied from another project.
pub record Os : Type 0 where
  pub open_file : List Call → List ℕ → OpenFlags → ℕ → Result ℕ
  pub read_file : List Call → ℕ → ℕ → Result (List ℕ)
  pub write_file : List Call → ℕ → List ℕ → Result ℕ
  pub lseek : List Call → ℕ → ℤ → Whence → Result ℕ
  pub close_file : List Call → ℕ → Result (Unit {0})
  pub stat : List Call → List ℕ → Result Stat
  pub fstat : List Call → ℕ → Result Stat
  pub unlink : List Call → List ℕ → Result (Unit {0})
  pub rename : List Call → List ℕ → List ℕ → Result (Unit {0})
  pub mkdir : List Call → List ℕ → ℕ → Result (Unit {0})
  pub rmdir : List Call → List ℕ → Result (Unit {0})
  pub opendir : List Call → List ℕ → Result ℕ
  pub readdir : List Call → ℕ → Option (List ℕ)
  pub telldir : List Call → ℕ → ℕ
  -- the names that `readdir` returns one after the other, from the start to its NULL
  pub listing : List Call → ℕ → List (List ℕ)
  -- the lines that `fgets` returns of a file, if it can be opened
  pub text_lines : List Call → List ℕ → Option (List (List ℕ))
  -- the paths that `nftw` hands to its function, as long as that returns 0
  pub nftw : List Call → List ℕ → Result (List (List ℕ))
  pub statvfs : List Call → List ℕ → Result StatVfs
  pub realpath : List Call → List ℕ → Result (List ℕ)
  pub time : List Call → ℕ
  pub rand : List Call → ℕ
  pub malloc : List Call → ℕ → Bool
  pub sendto : List Call → ℕ → ℕ → List ℕ → Result ℕ
  pub send : List Call → ℕ → List ℕ → Result ℕ
  pub recvfrom : List Call → ℕ → ℕ → Result Datagram
  pub recv : List Call → ℕ → ℕ → Result (List ℕ)
  pub accept : List Call → ℕ → Result Accepted
  pub setsockopt : List Call → ℕ → SockOpt → ℕ → Result (Unit {0})
  pub socket : List Call → SockType → Result ℕ
  pub bind : List Call → ℕ → ℕ → Result (Unit {0})
  pub listen : List Call → ℕ → ℕ → Result (Unit {0})
  pub epoll_add : List Call → ℕ → Result (Unit {0})
  pub epoll_del : List Call → ℕ → Result (Unit {0})
  -- the descriptors that are ready, in milliseconds at most
  pub epoll_wait : List Call → ℕ → Result (List ℕ)
  pub kevent_add : List Call → ℕ → Result (Unit {0})
  pub kevent_delete : List Call → ℕ → Result (Unit {0})
  -- the descriptors that are ready, so many at most, in seconds at most
  pub kevent_wait : List Call → ℕ → ℕ → Result (List ℕ)
  pub select : List Call → List ℕ → ℕ → Result Selected
  pub rlim_infinity : ℕ
  -- RLIMIT_NOFILE
  pub getrlimit : List Call → Result Rlimit
  pub setrlimit : List Call → Rlimit → Result (Unit {0})
  -- the number of the user, and of the group, of a name
  pub getpwnam : List Call → List ℕ → Result ℕ
  pub getgrnam : List Call → List ℕ → Result ℕ
  pub chroot : List Call → List ℕ → Result (Unit {0})
  pub chdir : List Call → List ℕ → Result (Unit {0})
  pub setgroups : List Call → List ℕ → Result (Unit {0})
  pub setgid : List Call → ℕ → Result (Unit {0})
  pub setuid : List Call → ℕ → Result (Unit {0})
  pub getuid : List Call → ℕ
  pub getgid : List Call → ℕ
  -- what an array on the stack holds before it is written
  pub garbage : List Call → List ℕ
  -- whether a signal has called `tnfsd_stop`
  pub stopped : List Call → Bool
  -- `sizeof (Session)`
  pub session_size : ℕ
  pub gitignore_glob_match : List ℕ → List ℕ → Bool

-- `errno` after a call: set by a failure, and left alone by a success.
abbrev pub errno_after {ℓ} : {A : Type ℓ} → Result A → Errno → Errno
errno_after (ok a) e = e
errno_after (err n) e = n

-- Does the call change files or directories? An open does if it may write, create or truncate.
unfoldable pub opens_for_write : OpenFlags → Bool
opens_for_write f = not (is_rdonly f.access) || f.creat || f.trunc || f.append

unfoldable pub is_mutating : Call → Bool
unfolding opens_for_write
is_mutating (Call.open_file p f m) = opens_for_write f
is_mutating (Call.write_file fd b) = true
is_mutating (Call.unlink p) = true
is_mutating (Call.rename p q) = true
is_mutating (Call.mkdir p m) = true
is_mutating (Call.rmdir p) = true
is_mutating _ = false

-- Does the call send a datagram, or a message on a connection, to a client?
unfoldable pub is_send : Call → Bool
is_send (Call.sendto a p b) = true
is_send (Call.send fd b) = true
is_send _ = false

-- The number of messages sent.
unfoldable pub sends : List Call → ℕ
unfolding is_send
sends [] = 0
sends (c ∷ cs) = if is_send c then suc (sends cs) else sends cs

-- None of the calls changes files or directories.
abbrev pub Reads : Call → Type 0
Reads c = is_mutating c ≡ false

abbrev pub ReadsOnly : List Call → Type 0
ReadsOnly = All Reads

-- What is true of every call that changes no file or directory.
abbrev pub HoldsOfReads : (Call → Type 0) → Type 0
HoldsOfReads P = (c : Call) → is_mutating c ≡ false → P c

pub Reads-reads : HoldsOfReads Reads
Reads-reads c e = e

-- `read` gives no more bytes than it is asked for.
abbrev pub ReadBound : Os → Type 0
ReadBound os =
    (h : List Call) (fd n : ℕ) (bytes : List ℕ) → os.read_file h fd n ≡ ok bytes → length bytes ≤ n

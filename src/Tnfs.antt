-- ===== src/Tnfs.antt =====
-- src/config.h, src/tnfs.h: the limits, and the structures that the parts of the daemon share. An
-- array is a list, a `char` buffer the list of its bytes.
use tnfsd.Base.{
  ℕ, Bool, false, Option, none, List, [], ◌∷◌, ◌-◌, ◌==◌, if◌then◌else◌, cstr, replicate, get_or,
  drop,
}
use tnfsd.Os.{Call, Errno, Result, errno_after}

abbrev pub maxmsgsz : ℕ
maxmsgsz = 532

abbrev pub max_fd_per_conn : ℕ
max_fd_per_conn = 16

abbrev pub max_dhnd_per_conn : ℕ
max_dhnd_per_conn = 8

unfoldable pub max_sessions : ℕ
max_sessions = 4096

abbrev pub max_sessions_per_ip : ℕ
max_sessions_per_ip = 16

abbrev pub session_timeout : ℕ
session_timeout = 600

abbrev pub conn_timeout : ℕ
conn_timeout = 600

abbrev pub tnfs_headersz : ℕ
tnfs_headersz = 4

abbrev pub max_tnfspath : ℕ
max_tnfspath = 256

abbrev pub max_filepath : ℕ
max_filepath = 384

abbrev pub max_filename_len : ℕ
max_filename_len = 256

abbrev pub max_iosz : ℕ
max_iosz = 512

-- `directory_entry`
pub record DirEntry : Type 0 where
  pub flags : ℕ
  pub size : ℕ
  pub mtime : ℕ
  pub ctime : ℕ
  pub entrypath : List ℕ

-- `dir_handle`. A node of the linked list is the list from that node on: `entry_list` is the whole
-- list, and `current_entry` what is left of it, `[]` for NULL.
pub record DirHandle : Type 0 where
  pub handle : Option ℕ
  pub is_open : Bool
  pub loaded : Bool
  pub path : List ℕ
  pub diropt : ℕ
  pub sortopt : ℕ
  pub pattern : List ℕ
  pub entry_count : ℕ
  pub entry_list : List DirEntry
  pub current_entry : List DirEntry
  pub open_at : ℕ
  pub ignore_patterns : List (List ℕ)

-- `atari_fd_metadata`
pub record AtariFd : Type 0 where
  pub is_atari_binary : Bool
  pub virtual_position : ℕ
  pub real_file_size : ℕ

-- `Session`. A free slot of `fd` holds 0.
pub record Session : Type 0 where
  pub last_contact : ℕ
  pub sid : ℕ
  pub ipaddr : ℕ
  pub fd : List ℕ
  pub atari_fd : List AtariFd
  pub dhandles : List DirHandle
  pub root : Option (List ℕ)
  pub lastmsg : List ℕ
  pub lastmsgsz : ℕ
  pub lastseqno : ℕ
  pub cli_fd : ℕ

-- `Header`
pub record Header : Type 0 where
  pub sid : ℕ
  pub seqno : ℕ
  pub cmd : ℕ
  pub status : ℕ
  pub ipaddr : ℕ
  pub port : ℕ
  pub cli_fd : ℕ

-- `TcpConnection`; the client's address is its IP address and port.
pub record TcpConnection : Type 0 where
  pub cli_addr : ℕ
  pub cli_port : ℕ
  pub cli_fd : ℕ
  pub last_contact : ℕ

-- What the daemon is started with: `root` and `realroot` of directory.c, `read_only` of auth.c, and
-- `atari_enabled` of atari.c with the boot sectors that the build makes.
pub record Config : Type 0 where
  pub root : List ℕ
  pub realroot : List ℕ
  pub read_only : Bool
  pub atari_enabled : Bool
  pub bootsector : List ℕ

-- The process's other state: the calls made, the latest first, `errno`, and the connections.
pub record Io : Type 0 where
  pub calls : List Call
  pub errno : Errno
  pub tcpsocks : List TcpConnection

-- A request's data as a handler gets it: `bytes` is what `buf` points to, `bufsz` its size, and
-- `before` the byte in front of it, which a read at `buf + bufsz - 1` finds if the size is 0.
pub record Buf : Type 0 where
  pub bytes : List ℕ
  pub bufsz : ℕ
  pub before : ℕ

-- What a handler works on.
pub record Ctx : Type 0 where
  pub io : Io
  pub open io use *
  pub sess : Session

-- `*(buf + i)`
abbrev pub byte_at : Buf → ℕ → ℕ
byte_at b i = get_or b.bytes i 0

-- `*(buf + bufsz - 1)`
unfoldable pub last_byte : Buf → ℕ
last_byte b = if b.bufsz == 0 then b.before else get_or b.bytes (b.bufsz - 1) 0

-- The string at `buf + i`
unfoldable pub string_at : Buf → ℕ → List ℕ
string_at b i = cstr (drop i b.bytes)

-- A call is made: it joins the history, and a failure sets `errno`.
abbrev pub did {ℓ} : {A : Type ℓ} → Call → Result A → Io → Io
did c r io = record io { calls = c ∷ io.calls; errno = errno_after r io.errno }

-- The same for a call that cannot fail, or leaves `errno` alone.
abbrev pub asked : Call → Io → Io
asked c io = record io { calls = c ∷ io.calls }

abbrev pub does {ℓ} : {A : Type ℓ} → Call → Result A → Ctx → Ctx
does c r x = record x { io = did c r x.io }

abbrev pub asks : Call → Ctx → Ctx
asks c x = record x { io = asked c x.io }

-- `memset (s, 0, sizeof (Session))`
abbrev pub fresh_dhandle : DirHandle
fresh_dhandle = record {
  handle = none;
  is_open = false;
  loaded = false;
  path = [];
  diropt = 0;
  sortopt = 0;
  pattern = [];
  entry_count = 0;
  entry_list = [];
  current_entry = [];
  open_at = 0;
  ignore_patterns = [];
}

abbrev pub fresh_atari : AtariFd
fresh_atari = record { is_atari_binary = false; virtual_position = 0; real_file_size = 0 }

unfoldable pub fresh_session : Session
fresh_session = record {
  last_contact = 0;
  sid = 0;
  ipaddr = 0;
  fd = replicate max_fd_per_conn 0;
  atari_fd = replicate max_fd_per_conn fresh_atari;
  dhandles = replicate max_dhnd_per_conn fresh_dhandle;
  root = none;
  lastmsg = replicate maxmsgsz 0;
  lastmsgsz = 0;
  lastseqno = 0;
  cli_fd = 0;
}

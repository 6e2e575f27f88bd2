-- ===== src/Tests.antt =====
-- A server in a concrete state, and the theorems at concrete requests, lists and numbers.
pub mod Loop
pub mod Images
pub mod Sockets
pub mod Start
pub mod Listing
pub mod Expiry
use tnfsd.Base.{
  ℕ, suc, Bool, true, false, Option, none, some, List, [], ◌∷◌, ◌++◌, ◌+◌, ◌*◌, ◌^◌, ◌≤◌, ◌<◌, ◌==◌,
  ◌≡◌, ◌≢◌, ◌||◌, min, refl, sym, ap, arith, length, take, drop, map, All, strstr, cstr,
}
use tnfsd.Os.{
  Os, Call, ok, err, enoent, eperm, eagain, sends, ReadsOnly, ReadBound, opens_for_write,
}
use tnfsd.Tnfs.{
  Config, Session, Header, Buf, Io, DirEntry, fresh_session, last_byte, string_at, fresh_dhandle,
}
use tnfsd.Strl.{strlcpy, strlcat, strlcpy-take, strlcat-take}
use tnfsd.Endian.{tnfs16uint, tnfs32uint, uint16tnfs, uint32tnfs, uint64tnfs}
use tnfsd.Endian.RoundTrip.{tnfs32uint-uint32tnfs, uint64tnfs-halves}
use tnfsd.Errortable.{tnfs_error, tnfs_error_bounds, tnfs_error-injective, tnfs_eof}
use tnfsd.Auth.{is_open_allowed, tnfs_make_mode, opens_for_write-tnfs_make_mode}
use tnfsd.Path.{root_of, normalize_path, tnfs_valid_filename}
use tnfsd.Path.Components.{
  components, has_double_slash, components-normalize_path, normalize_path_lem,
}
use tnfsd.Path.Confinement.{NoneClimbs, fitting, tnfs_valid_filename-components}
use tnfsd.Send.{packet, wire_call, tnfs_send, tnfs_resend}
use tnfsd.Send.Laws.{tnfs_resend-tnfs_send}
use tnfsd.DirList.{dirlist_sort, dirlist_get_node_at_index, dirlist_get_index_for_node}
use tnfsd.DirList.Position.{dirlist_get_index_for_node-dirlist_get_node_at_index}
use tnfsd.DirList.Sort.{dirlist_sort-perm, dirlist_sort-InOrder, InOrder, IsSmall}
use tnfsd.Dir.Listing.{fill_reply, readdirx_reply}
use tnfsd.Dir.Paging.{entries_bytes, fill_reply_lem}
use tnfsd.Dir.Replies.{length-readdirx_reply}
use tnfsd.Sessions.{
  visit, Server, tnfs_findsession_sid, tnfs_findsession_ipaddr, tnfs_newsid, expire_slots,
  tnfs_freesession,
}
use tnfsd.Sessions.Closing.{Made, tnfs_freesession-close_file, tnfs_freesession-closedir}
use tnfsd.Sessions.Mount.{tnfs_mount}
use tnfsd.Sessions.Table.{Free, has_sid, count_ip, tnfs_newsid-Free, tnfs_findsession_ipaddr-count}
use tnfsd.Sessions.Ids.Mounting.{tnfs_mount-Distinct}
use tnfsd.Sessions.Ids.{Distinct, expire_slots-Distinct, tnfs_findsession_sid-get_elem?}
use tnfsd.Server.Decode.{Addr, serve, tnfs_decode}
use tnfsd.Server.Answers.{tnfs_decode-Answered, tnfs_decode-AtMost}
use tnfsd.Server.ReadOnly.{tnfs_decode-ReadsOnly}
use mathlib.Core.List.{Perm}

-- A system in which every call succeeds, and files and directories are empty.
abbrev pub empty_disk : Os
empty_disk = record {
  open_file = λ h p f m. ok 3;
  read_file = λ h fd n. ok [];
  write_file = λ h fd b. ok (length b);
  lseek = λ h fd o w. ok 0;
  close_file = λ h fd. ok tt;
  stat = λ h p. ok (record {
    st_mode = 0o755;
    st_uid = 0;
    st_gid = 0;
    st_size = 0;
    st_atime = 0;
    st_mtime = 0;
    st_ctime = 0;
    is_dir = true;
  });
  fstat = λ h fd. err enoent;
  unlink = λ h p. ok tt;
  rename = λ h p q. ok tt;
  mkdir = λ h p m. ok tt;
  rmdir = λ h p. ok tt;
  opendir = λ h p. ok 5;
  readdir = λ h d. none;
  telldir = λ h d. 0;
  listing = λ h d. [];
  text_lines = λ h p. none;
  nftw = λ h p. ok [];
  statvfs = λ h p. err enoent;
  realpath = λ h p. ok p;
  time = λ h. 1000;
  rand = λ h. 0x4711;
  malloc = λ h n. true;
  sendto = λ h a p b. ok (length b);
  send = λ h fd b. ok (length b);
  recvfrom = λ h fd n. err eagain;
  recv = λ h fd n. ok [];
  accept = λ h fd. err eagain;
  setsockopt = λ h fd o v. ok tt;
  socket = λ h t. ok 3;
  bind = λ h fd p. ok tt;
  listen = λ h fd n. ok tt;
  epoll_add = λ h fd. ok tt;
  epoll_del = λ h fd. ok tt;
  epoll_wait = λ h t. ok [];
  kevent_add = λ h fd. ok tt;
  kevent_delete = λ h fd. ok tt;
  kevent_wait = λ h n t. ok [];
  select = λ h fds t. ok (record { count = 0; readable = λ fd. false; failed = λ fd. false });
  rlim_infinity = 0xFFFFFFFFFFFFFFFF;
  getrlimit = λ h. ok (record { rlim_cur = 1024; rlim_max = 4096 });
  setrlimit = λ h l. ok tt;
  getpwnam = λ h u. ok 1000;
  getgrnam = λ h g. ok 100;
  chroot = λ h p. ok tt;
  chdir = λ h p. ok tt;
  setgroups = λ h gs. ok tt;
  setgid = λ h g. ok tt;
  setuid = λ h u. ok tt;
  getuid = λ h. 1000;
  getgid = λ h. 100;
  garbage = λ h. [];
  stopped = λ h. false;
  session_size = 4000;
  gitignore_glob_match = λ s p. false;
}

pub empty_disk-ReadBound : ReadBound empty_disk
empty_disk-ReadBound h fd n [] e = omega arith
empty_disk-ReadBound h fd n (c ∷ cs) e = absurd (ground arith)

abbrev pub settings : Config
settings = record {
  root = b'/' ∷ b'd' ∷ [];
  realroot = b'/' ∷ b'd' ∷ [];
  read_only = true;
  atari_enabled = false;
  bootsector = [];
}

abbrev pub start : Io
start = record { calls = []; errno = eperm; tcpsocks = [] }

-- a session of the client 7, mounted at "/"
abbrev pub mounted : Session
mounted = record fresh_session {
  sid = 0x1234;
  ipaddr = 7;
  last_contact = 990;
  root = some (b'/' ∷ []);
  lastseqno = 4;
  lastmsg = 1 ∷ 2 ∷ 3 ∷ [];
  lastmsgsz = 3;
}

abbrev pub busy : Server
busy = record { slist = none ∷ some mounted ∷ none ∷ []; io = start }

abbrev pub client : Addr
client = record { ip = 7; port = 16384 }

-- OPENDIR "/"; MOUNT "/"
abbrev opendir_request : List ℕ
opendir_request = 0x34 ∷ 0x12 ∷ 5 ∷ 0x10 ∷ b'/' ∷ 0 ∷ []

abbrev pub mount_data : Buf
mount_data = record { bytes = 2 ∷ 1 ∷ b'/' ∷ 0 ∷ 0 ∷ 0 ∷ []; bufsz = 6; before = 0 }

abbrev pub header : Header
header = record {
  sid = 0x1234;
  seqno = 5;
  cmd = 0x11;
  status = 0;
  ipaddr = 7;
  port = 16384;
  cli_fd = 0;
}

busy-Distinct : Distinct busy.slist
unfolding Distinct has_sid
busy-Distinct = (tt, ((refl, tt), (tt, tt)))

abbrev owner_is : Option (ℕ × Session) → Bool
owner_is none = true
owner_is (some (i, s)) = s.ipaddr == 7

owner :
    (i : ℕ) (s : Session)
    → tnfs_findsession_sid (tnfs16uint opendir_request) busy.slist ≡ some (i, s)
    → (s.ipaddr == 7) ≡ true
unfolding tnfs_findsession_sid tnfs16uint
owner i s e = sym (ap owner_is e)

tnfs_decode-Answered_example :
    sends (tnfs_decode empty_disk settings client 0 6 opendir_request busy).calls ≡ suc (sends [])
tnfs_decode-Answered_example =
    tnfs_decode-Answered empty_disk settings client 0 6 opendir_request busy empty_disk-ReadBound
      refl refl owner

tnfs_decode-ReadsOnly_example :
    ReadsOnly (tnfs_decode empty_disk settings client 0 6 opendir_request busy).calls
tnfs_decode-ReadsOnly_example =
    tnfs_decode-ReadsOnly empty_disk settings empty_disk-ReadBound refl client 0 6 opendir_request
      busy (omega arith) tt

tnfs_resend-tnfs_send_example :
    (tnfs_resend empty_disk 7 16384 0
      (tnfs_send empty_disk header (9 ∷ []) (record { io = start; sess = mounted }))).calls
    ≡ wire_call 0 7 16384 (packet 0x1234 header (9 ∷ []))
      ∷ wire_call 0 7 16384 (packet 0x1234 header (9 ∷ []))
      ∷ []
tnfs_resend-tnfs_send_example =
    tnfs_resend-tnfs_send empty_disk header (9 ∷ []) 7 16384 0
      (record { io = start; sess = mounted }) (omega arith)

tnfs_mount-Distinct_example : Distinct (tnfs_mount empty_disk settings header mount_data busy).slist
tnfs_mount-Distinct_example =
    tnfs_mount-Distinct empty_disk settings header mount_data busy busy-Distinct

tnfs_findsession_sid-get_elem?_example : tnfs_findsession_sid 0x1234 busy.slist ≡ some (1, mounted)
tnfs_findsession_sid-get_elem?_example =
    tnfs_findsession_sid-get_elem? 1 mounted busy.slist busy-Distinct refl

nothing_found : (tnfs_findsession_ipaddr empty_disk 7 busy).found ≡ none
unfolding tnfs_findsession_ipaddr visit
nothing_found = refl

drawn : (tnfs_newsid empty_disk busy.slist start).0 ≡ 0x4711
unfolding tnfs_newsid
drawn = refl

tnfs_newsid-Free_example :
    Free (tnfs_newsid empty_disk busy.slist start).0 busy.slist
    × ((tnfs_newsid empty_disk busy.slist start).0 < 65536)
tnfs_newsid-Free_example = tnfs_newsid-Free empty_disk busy.slist start (ap (λ n. n == 0) drawn)

-- the file name "/a//b" at the start of a request
abbrev name_data : Buf
name_data = record { bytes = b'/' ∷ b'a' ∷ b'/' ∷ b'/' ∷ b'b' ∷ 0 ∷ []; bufsz = 6; before = 0 }

abbrev full_name : List ℕ
full_name = b'/' ∷ b'd' ∷ b'/' ∷ b'a' ∷ b'/' ∷ b'b' ∷ []

root_fits : length (root_of settings mounted) < 384
unfolding root_of
root_fits = omega arith

name_accepted : tnfs_valid_filename settings mounted name_data 0 ≡ some full_name
unfolding tnfs_valid_filename strlcat strstr last_byte string_at cstr normalize_path root_of
name_accepted = refl

tnfs_valid_filename-components_example :
    (components full_name
      ≡ components (root_of settings mounted)
        ++ components (fitting settings mounted (string_at name_data 0)))
    × NoneClimbs (components (fitting settings mounted (string_at name_data 0)))
tnfs_valid_filename-components_example =
    tnfs_valid_filename-components settings mounted name_data 0 root_fits name_accepted

components-normalize_path_example : components (normalize_path full_name 256) ≡ components full_name
components-normalize_path_example = components-normalize_path full_name 256 (omega arith)

normalize_path_lem_example :
    (length (normalize_path full_name 256) ≤ length full_name)
    × (has_double_slash false (normalize_path full_name 256) ≡ false)
    × (normalize_path (normalize_path full_name 256) 256 ≡ normalize_path full_name 256)
normalize_path_lem_example = normalize_path_lem full_name 256 (omega arith)

abbrev pub named : ℕ → DirEntry
named c = record { flags = 0; size = c; mtime = 5; ctime = 5; entrypath = c ∷ [] }

abbrev pub three : List DirEntry
three = named 98 ∷ named 97 ∷ named 99 ∷ []

dirlist_sort-perm_example : Perm (dirlist_sort 0 three) three
dirlist_sort-perm_example = dirlist_sort-perm 0 three

three-IsSmall : All IsSmall three
three-IsSmall =
    ((omega arith, omega arith), ((omega arith, omega arith), ((omega arith, omega arith), tt)))

dirlist_sort-InOrder_example : InOrder 4 (dirlist_sort 4 three)
dirlist_sort-InOrder_example = dirlist_sort-InOrder 4 three three-IsSmall

dirlist_get_index_for_node-dirlist_get_node_at_index_example :
    dirlist_get_index_for_node three (dirlist_get_node_at_index three 2) ≡ min 2 3
dirlist_get_index_for_node-dirlist_get_node_at_index_example =
    dirlist_get_index_for_node-dirlist_get_node_at_index three 2

tnfs_error-injective_example : enoent ≡ enoent
unfolding tnfs_error
tnfs_error-injective_example = tnfs_error-injective enoent enoent (λ e. absurd (omega arith)) refl

-- the session with the descriptor 9 open in its second slot, and the stream 5 in a handle
abbrev working : Session
working = record mounted {
  fd = 0 ∷ 9 ∷ 0 ∷ [];
  dhandles = record fresh_dhandle { handle = some 5; is_open = true } ∷ [];
}

tnfs_freesession-close_file_example :
    Made (Call.close_file 9) (tnfs_freesession empty_disk working 1 busy).calls
tnfs_freesession-close_file_example =
    tnfs_freesession-close_file empty_disk working 1 1 9 busy refl refl

tnfs_freesession-closedir_example :
    Made (Call.closedir 5) (tnfs_freesession empty_disk working 1 busy).calls
tnfs_freesession-closedir_example =
    tnfs_freesession-closedir empty_disk working 1 0 5
      (record fresh_dhandle { handle = some 5; is_open = true }) busy refl refl

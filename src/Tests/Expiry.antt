-- ===== src/Tests/Expiry.antt =====
-- The expiry of a session that has a descriptor and a directory stream open.
use tnfsd.Base.{true, none, some, [], ◌∷◌, ◌≡◌, refl, get_elem?}
use tnfsd.Os.{Os}
use tnfsd.Tnfs.{Session, fresh_dhandle}
use tnfsd.Sessions.{Server, tnfs_expire_sessions}
use tnfsd.Sessions.Expiry.{Expires, tnfs_expire_sessions-Expires}
use tnfsd.Tests.{empty_disk, mounted, start}

abbrev quiet_since : Session
quiet_since = record mounted {
  last_contact = 100;
  cli_fd = 0;
  fd = 0 ∷ 6 ∷ [];
  dhandles = record fresh_dhandle { handle = some 5; is_open = true } ∷ [];
}

abbrev later : Os
later = record empty_disk { time = λ calls. 700 }

abbrev one_quiet : Server
one_quiet = record { slist = none ∷ some quiet_since ∷ []; io = start }

tnfs_expire_sessions-Expires_example :
    Expires 700 1 quiet_since (tnfs_expire_sessions later one_quiet)
tnfs_expire_sessions-Expires_example =
    tnfs_expire_sessions-Expires later one_quiet 1 quiet_since refl

slot_is_empty : get_elem? (tnfs_expire_sessions later one_quiet).slist 1 ≡ some none
unfolding tnfs_expire_sessions
slot_is_empty = refl

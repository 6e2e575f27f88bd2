-- ===== src/Sessions/Mount.antt =====
-- src/session.c: `tnfs_allocsession`, `tnfs_mount` and `tnfs_umount`.
use tnfsd.Base.{
  ℕ, suc, not, Option, none, some, List, [], ◌∷◌, ◌+◌, ◌==◌, ltb, if◌then◌else◌, length, set, take,
  get_elem?,
}
use tnfsd.Os.{Os, Call}
use tnfsd.Tnfs.{Config, Session, Header, Buf, asked, fresh_session, last_byte, string_at}
use tnfsd.Errortable.{tnfs_error, tnfs_success}
use tnfsd.Strl.{strlcpy}
use tnfsd.Path.{validate_dir}
use tnfsd.Send.{reply}
use tnfsd.Sessions.{Server, Slots, tnfs_freesession, tnfs_findsession_ipaddr, tnfs_newsid}

unfoldable pub free_index : Slots → ℕ → Option ℕ
free_index [] i = none
free_index (none ∷ rest) i = some i
free_index (some s ∷ rest) i = free_index rest (suc i)

-- What `tnfs_allocsession` returns, and the state after it.
pub record Alloc : Type 0 where
  pub slot : Option (ℕ × Session)
  pub server : Server

-- The session, zeroed but for its ID, in the slot `i`.
unfoldable pub fill_slot : ℕ → ℕ → Server → Alloc
fill_slot i sid srv =
    let s = record fresh_session { sid = sid } in
    record { slot = some (i, s); server = record srv { slist = set srv.slist i (some s) } }

unfoldable pub tnfs_allocsession : Os → ℕ → Server → Alloc
unfolding free_index fill_slot
tnfs_allocsession os with_sid srv = elim (free_index srv.slist 0) [
  | none ↦ record { slot = none; server = srv }
  | some i ↦
      let got = os.malloc srv.calls os.session_size in
      let io = asked (Call.malloc os.session_size) srv.io in
      let (sid, io') = tnfs_newsid os srv.slist io in
      if not got
      then record { slot = none; server = record srv { io = io } }
      else if ltb 0 with_sid
      then fill_slot i with_sid (record srv { io = io })
      else if sid == 0
      then record { slot = none; server = record srv { io = io' } }
      else fill_slot i sid (record srv { io = io' })
]

-- Sessions of the client that are too many or too old are freed; the ID of the one that makes room
-- is used again.
unfoldable pub make_room : Os → ℕ → Server → ℕ × Server
make_room os ip srv =
    let r = tnfs_findsession_ipaddr os ip srv in
    let srv' : Server = record { slist = r.slots; io = r.io } in
    elim r.found [
      | none ↦ (0, srv')
      | some i ↦ elim (get_elem? r.slots i) [
        | some (some s) ↦ (s.sid, tnfs_freesession os s i srv')
        | _ ↦ (0, srv')
      ]
    ]

module _ (os : Os) (conf : Config) (hdr : Header) where
  -- protocol version and timeout
  abbrev version_bytes : List ℕ
  version_bytes = 0x03 ∷ 0x01 ∷ 0xE8 ∷ 0x03 ∷ []

  -- The session is set up: it is answered, and kept if its root is a directory.
  unfoldable pub answer_mount : ℕ → Session → Server → Server
  answer_mount i s srv =
      let (valid, io) = validate_dir os conf s srv.io in
      if valid
      then (let y =
            reply os (record hdr { sid = s.sid }) tnfs_success version_bytes
              (record { io = io; sess = s }) in
          record { slist = set srv.slist i (some (y.sess)); io = y.io })
      else (let y =
            reply os (record hdr { sid = 0 }) (tnfs_error io.errno) (take 2 version_bytes)
              (record { io = io; sess = s }) in
          tnfs_freesession os y.sess i (record srv { io = y.io }))

  -- The new session gets its root and its client.
  unfoldable pub set_up : List ℕ → ℕ → Session → Server → Server
  set_up cliroot i s srv =
      let mplen = length cliroot in
      let io = asked (Call.malloc (mplen + 1)) srv.io in
      let s' = record s {
        root = some (strlcpy cliroot (mplen + 1));
        last_contact = os.time io.calls;
        ipaddr = hdr.ipaddr;
        cli_fd = hdr.cli_fd;
      } in
      if os.malloc srv.calls (mplen + 1)
      then answer_mount i s' (record { slist = set srv.slist i (some s'); io = asked Call.time io })
      else record srv { io = io }

  unfoldable pub tnfs_mount : Buf → Server → Server
  unfolding make_room set_up tnfs_allocsession
  tnfs_mount b srv =
      let (recycled, srv1) = make_room os hdr.ipaddr srv in
      let a = tnfs_allocsession os recycled srv1 in
      let given = string_at b 2 in
      let cliroot = if ltb (length given) 1 then b'/' ∷ [] else given in
      if not (last_byte b == 0)
      then srv
      else elim a.slot [ none ↦ a.server | some (i, s) ↦ set_up cliroot i s a.server ]

  -- The answer goes out before the session is freed.
  unfoldable pub tnfs_umount : Session → ℕ → Server → Server
  tnfs_umount s i srv =
      let y = reply os hdr tnfs_success [] (record { io = srv.io; sess = s }) in
      tnfs_freesession os y.sess i (record srv { io = y.io })

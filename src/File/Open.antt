-- ===== src/File/Open.antt =====
-- src/tnfs_file.c: `tnfs_open` and `tnfs_open_deprecated`.
use tnfsd.Base.{
  ℕ, suc, not, Option, none, some, List, [], ◌∷◌, ◌+◌, ◌-◌, ◌*◌, ◌/◌, ◌==◌, ltb, if◌then◌else◌, bit,
  set, take, drop,
}
use tnfsd.Os.{Os, Call, ok, err, OpenFlags}
use tnfsd.Tnfs.{Config, Header, Buf, Ctx, byte_at, did, does, asks}
use tnfsd.Errortable.{tnfs_error, tnfs_success, tnfs_einval, tnfs_enomem, tnfs_emfile}
use tnfsd.Auth.{is_open_allowed, tnfs_make_mode}
use tnfsd.Path.{tnfs_valid_filename}
use tnfsd.Atari.{atari_should_virtualize, atari_mark_fd}
use tnfsd.Send.{reply, tnfs_notpermitted}

-- the first slot of `fd`, from index `i` on, that holds 0
unfoldable pub free_slot : List ℕ → ℕ → Option ℕ
free_slot [] i = none
free_slot (d ∷ ds) i = if d == 0 then some i else free_slot ds (suc i)

-- `flags = *buf + (*(buf + 1) * 256);`
abbrev pub word_at : Buf → ℕ → ℕ
word_at b i = byte_at b i + byte_at b (suc i) * 256

module _ (os : Os) (conf : Config) (hdr : Header) where
  -- The file is open as `fd`: it may be marked as an image, and takes the slot `i`.
  unfoldable pub opened : List ℕ → OpenFlags → ℕ → ℕ → Ctx → Ctx
  opened path mode i fd x =
      let (virtual, io) = atari_should_virtualize os conf path mode x.io in
      let r = os.fstat io.calls fd in
      let asked_io = did (Call.fstat fd) r io in
      let marked : Ctx = elim r [
        | err e ↦ record x { io = asked_io }
        | ok st ↦ record x { io = asked_io; sess = atari_mark_fd x.sess i st.st_size }
      ] in
      let y : Ctx = if virtual then marked else record x { io = io } in
      reply os hdr tnfs_success (i ∷ [])
        (record y { sess = record (y.sess) { fd = set (y.sess).fd i fd } })

  -- `open` into the slot `i`; a descriptor of 0 is taken for a failure
  unfoldable pub open_slot : List ℕ → OpenFlags → ℕ → ℕ → Ctx → Ctx
  unfolding opened
  open_slot path mode perm i x =
      let r = os.open_file x.calls path mode perm in
      let y = does (Call.open_file path mode perm) r x in
      elim r [
        | err e ↦ reply os hdr (tnfs_error y.errno) [] y
        | ok fd ↦
            if fd == 0 then reply os hdr (tnfs_error y.errno) [] y else opened path mode i fd y
      ]

  unfoldable pub open_path : Buf → List ℕ → Ctx → Ctx
  unfolding open_slot free_slot
  open_path b path x =
      if not (is_open_allowed conf.read_only (word_at b 0))
      then record x { io = tnfs_notpermitted os hdr x.io }
      else elim (free_slot (x.sess).fd 0) [
        | none ↦ reply os hdr tnfs_emfile [] x
        | some i ↦ open_slot path (tnfs_make_mode (word_at b 0)) (word_at b 2) i x
      ]

  unfoldable pub tnfs_open : Buf → Ctx → Ctx
  unfolding open_path
  tnfs_open b x =
      if ltb b.bufsz 5
      then reply os hdr tnfs_einval [] x
      else elim (tnfs_valid_filename conf x.sess b 4) [
        | none ↦ reply os hdr tnfs_einval [] x
        | some path ↦ open_path b path x
      ]

  -- The old request in the new layout: the flags are moved, and the mode is 0644.
  unfoldable pub new_layout : Buf → Buf
  new_layout b = record {
    bytes =
        (if bit (byte_at b 1) 0 then (if bit (byte_at b 0) 3 then 8 else 0) else byte_at b 0)
        ∷ (byte_at b 1 / 2)
        ∷ 0xA4
        ∷ 0x01
        ∷ take (b.bufsz - 2) (drop 2 b.bytes);
    bufsz = b.bufsz + 2;
    before = 0;
  }

  unfoldable pub tnfs_open_deprecated : Buf → Ctx → Ctx
  unfolding new_layout
  tnfs_open_deprecated b x =
      if ltb b.bufsz 3
      then reply os hdr tnfs_einval [] x
      else (let y = asks (Call.malloc (b.bufsz + 2)) x in
          if os.malloc x.calls (b.bufsz + 2)
          then tnfs_open (new_layout b) y
          else reply os hdr tnfs_enomem [] y)

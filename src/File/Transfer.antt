-- ===== src/File/Transfer.antt =====
-- src/tnfs_file.c: `tnfs_read`, `tnfs_write`, `tnfs_lseek` and `tnfs_close`.
use tnfsd.Base.{
  ℕ, List, [], ◌∷◌, ◌++◌, ◌-◌, ◌%◌, ◌^◌, ◌==◌, ltb, if◌then◌else◌, length, set, take, drop,
}
use tnfsd.Base.Int.{to_int32}
use tnfsd.Os.{Os, Call, Result, ok, err}
use tnfsd.Tnfs.{Config, Session, Header, Buf, Ctx, byte_at, does, max_iosz}
use tnfsd.Endian.{tnfs16uint, tnfs32uint, uint16tnfs, uint32tnfs}
use tnfsd.Errortable.{tnfs_error, tnfs_success, tnfs_eof}
use tnfsd.Atari.{atari_is_virtual_fd, atari_virtual_read, atari_virtual_lseek, atari_clear_fd}
use tnfsd.Send.{reply}
use tnfsd.File.{validate_fd, getwhence}

abbrev pub clamp : ℕ → ℕ → ℕ
clamp n limit = if ltb limit n then limit else n

module _ (os : Os) (conf : Config) (hdr : Header) where
  -- `read`, of an image or of the file
  unfoldable pub read_bytes : ℕ → ℕ → ℕ → Ctx → Result (List ℕ) × Ctx
  read_bytes i fd requestsz x =
      if atari_is_virtual_fd x.sess i
      then atari_virtual_read os conf i fd requestsz x
      else (let r = os.read_file x.calls fd requestsz in
          (r, does (Call.read_file fd requestsz) r x))

  unfoldable pub read_reply : Result (List ℕ) → Ctx → Ctx
  read_reply (err e) x = reply os hdr (tnfs_error x.errno) [] x
  read_reply (ok []) x = reply os hdr tnfs_eof [] x
  read_reply (ok (c ∷ cs)) x =
      reply os hdr tnfs_success (uint16tnfs (length (c ∷ cs)) ++ (c ∷ cs)) x

  unfoldable pub tnfs_read : Buf → Ctx → Ctx
  unfolding read_bytes read_reply validate_fd
  tnfs_read b x =
      let (fd, y) = validate_fd os hdr b 3 x in
      if fd == 0
      then y
      else (let requestsz = clamp (tnfs16uint (drop 1 b.bytes)) max_iosz in
          let (r, z) = read_bytes (byte_at b 0) fd requestsz y in read_reply r z)

  -- how many bytes are written: what the request says, what it holds, and the limit
  unfoldable pub write_size : Buf → ℕ
  write_size b = clamp (clamp (tnfs16uint (drop 1 b.bytes)) (b.bufsz - 3)) max_iosz

  unfoldable pub write_reply : Result ℕ → Ctx → Ctx
  write_reply (err e) x = reply os hdr (tnfs_error x.errno) [] x
  write_reply (ok n) x =
      if n == 0
      then reply os hdr (tnfs_error x.errno) [] x
      else reply os hdr tnfs_success (uint16tnfs n) x

  unfoldable pub tnfs_write : Buf → Ctx → Ctx
  unfolding write_size write_reply validate_fd
  tnfs_write b x =
      let (fd, y) = validate_fd os hdr b 4 x in
      if fd == 0
      then y
      else (let bytes = take (write_size b) (drop 3 b.bytes) in
          let r = os.write_file y.calls fd bytes in
          write_reply r (does (Call.write_file fd bytes) r y))

  -- The result is an `int32_t`: a position of 2^31 or more reads as an error.
  unfoldable pub lseek_reply : Result ℕ → Ctx → Ctx
  lseek_reply (err e) x = reply os hdr (tnfs_error x.errno) [] x
  lseek_reply (ok n) x =
      if ltb (n % 2 ^ 32) (2 ^ 31)
      then reply os hdr tnfs_success (uint32tnfs (n % 2 ^ 32)) x
      else reply os hdr (tnfs_error x.errno) [] x

  unfoldable pub tnfs_lseek : Buf → Ctx → Ctx
  unfolding lseek_reply validate_fd
  tnfs_lseek b x =
      let (fd, y) = validate_fd os hdr b 6 x in
      let offset = to_int32 (tnfs32uint (drop 2 b.bytes)) in
      let whence = getwhence (byte_at b 1) in
      if fd == 0
      then y
      else if atari_is_virtual_fd y.sess (byte_at b 0)
      then (let (r, z) = atari_virtual_lseek (byte_at b 0) offset whence y in lseek_reply r z)
      else (let r = os.lseek y.calls fd offset whence in
          lseek_reply r (does (Call.lseek fd offset whence) r y))

  -- The slot is free again, whether `close` succeeds or not.
  unfoldable pub release_slot : ℕ → Session → Session
  release_slot i s =
      if conf.atari_enabled
      then record (atari_clear_fd s i) { fd = set (atari_clear_fd s i).fd i 0 }
      else record s { fd = set s.fd i 0 }

  unfoldable pub tnfs_close : Buf → Ctx → Ctx
  unfolding release_slot validate_fd
  tnfs_close b x =
      let (fd, y) = validate_fd os hdr b 1 x in
      if fd == 0
      then y
      else (let r = os.close_file y.calls fd in
          let z = does (Call.close_file fd) r y in
          let closed = record z { sess = release_slot (byte_at b 0) z.sess } in
          elim r [
            | ok done ↦ reply os hdr tnfs_success [] closed
            | err e ↦ reply os hdr (tnfs_error e) [] closed
          ])

-- ===== src/File/Keeps.antt =====
-- src/tnfs_file.c: no command on a file changes whose session it is, the size of its tables, or the
-- connections; and the message that is kept fits its buffer.
use tnfsd.Base.{
  ℕ, zero, suc, leb, Bool, true, false, List, [], ◌∷◌, ◌-◌, min, ◌≡◌, refl, arith, inl, inr,
  Bool-cases, length-set,
}
use tnfsd.Os.{Os, Result, ok, err, OpenFlags}
use tnfsd.Tnfs.{AtariFd, Io, Config, Header, Buf, Ctx}
use tnfsd.Send.{tnfs_notpermitted}
use tnfsd.Shape.{conns, shape, Keeps, shape-reply, Fits-reply, conns-send_nosess}
use tnfsd.Atari.{
  ReadEnd, failed, finished, Region, done, header, boot, real, padding, prepend, after_read,
  after_seek, read_round, read_regions, region, virtual_end, atari_meta, atr_total_size,
  atari_clear_fd, atari_mark_fd, atari_is_virtual_fd, atari_virtual_read, atari_virtual_lseek,
  atari_should_virtualize,
}
use tnfsd.File.Open.{opened, open_slot, open_path, tnfs_open, tnfs_open_deprecated}
use tnfsd.File.Names.{tnfs_stat, tnfs_unlink, tnfs_chmod, tnfs_rename, outcome}
use tnfsd.File.Device.{device, tnfs_size, tnfs_free}
use tnfsd.File.Transfer.{
  read_bytes, read_reply, lseek_reply, write_reply, release_slot, tnfs_read, tnfs_write, tnfs_lseek,
  tnfs_close,
}

module _ (os : Os) (bs : List ℕ) (size fd : ℕ) where
  module _ (again : ℕ → ℕ → Io → ReadEnd × Io)
      (ih : (vpos count : ℕ) (io : Io) → conns (again vpos count io).1 ≡ conns io) (first : Bool)
      (vpos count : ℕ) where
    conns-prepend : (bytes : List ℕ) (r : ReadEnd × Io) → conns (prepend bytes r).1 ≡ conns r.1
    conns-prepend bytes (failed, io) = refl
    conns-prepend bytes (finished rest at, io) = refl

    conns-after_read :
        (n : ℕ) (r : Result (List ℕ)) (io : Io)
        → conns (after_read os bs size fd again first vpos count n r io).1 ≡ conns io
    unfolding after_read
    conns-after_read n (err e) io = refl
    conns-after_read n (ok got) io = grind (arith, conns-prepend got, ih)

    conns-after_seek :
        (r : Result ℕ) (io : Io)
        → conns (after_seek os bs size fd again first vpos count r io).1 ≡ conns io
    unfolding after_seek
    conns-after_seek (err e) io = refl
    conns-after_seek (ok at) io = grind (arith, conns-after_read)

    conns-read_round :
        (io : Io) (g : Region)
        → conns (read_round os bs size fd again first vpos count io g).1 ≡ conns io
    unfolding read_round
    conns-read_round io done = refl
    conns-read_round io header = grind (arith, conns-prepend, ih)
    conns-read_round io boot = grind (arith, conns-prepend, ih)
    conns-read_round io real = grind (arith, conns-after_seek)
    conns-read_round io padding = grind (arith, conns-prepend, ih)

  conns-read_regions :
      (fuel : ℕ) (first : Bool) (vpos count : ℕ) (io : Io)
      → conns (read_regions os bs size fd fuel first vpos count io).1 ≡ conns io
  unfolding read_regions
  conns-read_regions zero first vpos count io = refl
  conns-read_regions (suc fuel) first vpos count io =
      conns-read_round (read_regions os bs size fd fuel false) (conns-read_regions fuel false) first
        vpos count io (region os bs size fd vpos count)

virtual_end-Keeps :
    (i : ℕ) (m : AtariFd) (x : Ctx) (end : ReadEnd × Io)
    → conns end.1 ≡ conns x.io
    → Keeps x (virtual_end i m x end).1
unfolding virtual_end shape
virtual_end-Keeps i m x (failed, io) h = (grind arith, λ f. f)
virtual_end-Keeps i m x (finished got at, io) h = (grind (arith, length-set), λ f. f)

module _ (os : Os) (conf : Config) (hdr : Header) where
  pub outcome-Keeps : (r : Result (Unit {0})) (x : Ctx) → Keeps x (outcome os conf hdr r x)
  unfolding outcome
  outcome-Keeps (ok u) x =
      (grind (arith, shape-reply os hdr), λ f. grind (arith, Fits-reply os hdr))
  outcome-Keeps (err e) x =
      (grind (arith, shape-reply os hdr), λ f. grind (arith, Fits-reply os hdr))

  pub tnfs_unlink-Keeps : (b : Buf) (x : Ctx) → Keeps x (tnfs_unlink os conf hdr b x)
  unfolding tnfs_unlink shape
  tnfs_unlink-Keeps b x = (
    grind (arith, shape-reply os hdr, outcome-Keeps),
    λ f. grind (arith, Fits-reply os hdr, outcome-Keeps),
  )

  pub tnfs_close-Keeps : (b : Buf) (x : Ctx) → Keeps x (tnfs_close os conf hdr b x)
  unfolding tnfs_close shape atari_clear_fd release_slot
  tnfs_close-Keeps b x = (
    grind (arith, shape-reply os hdr, length-set),
    λ f. grind (arith, Fits-reply os hdr, length-set),
  )

  write_reply-Keeps : (r : Result ℕ) (x : Ctx) → Keeps x (write_reply os conf hdr r x)
  unfolding write_reply
  write_reply-Keeps (ok n) x =
      (grind (arith, shape-reply os hdr), λ f. grind (arith, Fits-reply os hdr))
  write_reply-Keeps (err e) x =
      (grind (arith, shape-reply os hdr), λ f. grind (arith, Fits-reply os hdr))

  lseek_reply-Keeps : (r : Result ℕ) (x : Ctx) → Keeps x (lseek_reply os conf hdr r x)
  unfolding lseek_reply
  lseek_reply-Keeps (ok n) x =
      (grind (arith, shape-reply os hdr), λ f. grind (arith, Fits-reply os hdr))
  lseek_reply-Keeps (err e) x =
      (grind (arith, shape-reply os hdr), λ f. grind (arith, Fits-reply os hdr))

  read_reply-Keeps : (r : Result (List ℕ)) (x : Ctx) → Keeps x (read_reply os conf hdr r x)
  unfolding read_reply
  read_reply-Keeps (ok []) x =
      (grind (arith, shape-reply os hdr), λ f. grind (arith, Fits-reply os hdr))
  read_reply-Keeps (ok (c ∷ cs)) x =
      (grind (arith, shape-reply os hdr), λ f. grind (arith, Fits-reply os hdr))
  read_reply-Keeps (err e) x =
      (grind (arith, shape-reply os hdr), λ f. grind (arith, Fits-reply os hdr))

  pub tnfs_write-Keeps : (b : Buf) (x : Ctx) → Keeps x (tnfs_write os conf hdr b x)
  unfolding tnfs_write shape
  tnfs_write-Keeps b x = (
    grind (arith, shape-reply os hdr, write_reply-Keeps),
    λ f. grind (arith, Fits-reply os hdr, write_reply-Keeps),
  )

  pub tnfs_lseek-Keeps : (b : Buf) (x : Ctx) → Keeps x (tnfs_lseek os conf hdr b x)
  unfolding tnfs_lseek shape atari_virtual_lseek
  tnfs_lseek-Keeps b x = (
    grind (arith, shape-reply os hdr, lseek_reply-Keeps, length-set),
    λ f. grind (arith, Fits-reply os hdr, lseek_reply-Keeps, length-set),
  )

  pub tnfs_size-Keeps : (b : Buf) (x : Ctx) → Keeps x (tnfs_size os conf hdr b x)
  unfolding tnfs_size shape device
  tnfs_size-Keeps b x = (grind (arith, shape-reply os hdr), λ f. grind (arith, Fits-reply os hdr))

  pub tnfs_free-Keeps : (b : Buf) (x : Ctx) → Keeps x (tnfs_free os conf hdr b x)
  unfolding tnfs_free shape device
  tnfs_free-Keeps b x = (grind (arith, shape-reply os hdr), λ f. grind (arith, Fits-reply os hdr))

  pub tnfs_stat-Keeps : (b : Buf) (x : Ctx) → Keeps x (tnfs_stat os conf hdr b x)
  unfolding tnfs_stat shape atari_should_virtualize
  tnfs_stat-Keeps b x = (grind (arith, shape-reply os hdr), λ f. grind (arith, Fits-reply os hdr))

  pub tnfs_rename-Keeps : (b : Buf) (x : Ctx) → Keeps x (tnfs_rename os conf hdr b x)
  unfolding tnfs_rename shape
  tnfs_rename-Keeps b x = (
    grind (arith, shape-reply os hdr, outcome-Keeps),
    λ f. grind (arith, Fits-reply os hdr, outcome-Keeps),
  )

  pub tnfs_chmod-Keeps : (b : Buf) (x : Ctx) → Keeps x (tnfs_chmod os conf hdr b x)
  unfolding tnfs_chmod
  tnfs_chmod-Keeps b x = (refl, λ f. f)

  opened-Keeps :
      (path : List ℕ) (mode : OpenFlags) (i fd : ℕ) (x : Ctx)
      → Keeps x (opened os conf hdr path mode i fd x)
  unfolding opened shape atari_should_virtualize atari_mark_fd
  opened-Keeps path mode i fd x = (
    grind (arith, shape-reply os hdr, length-set),
    λ f. grind (arith, Fits-reply os hdr, length-set),
  )

  open_slot-Keeps :
      (path : List ℕ) (mode : OpenFlags) (perm i : ℕ) (x : Ctx)
      → Keeps x (open_slot os conf hdr path mode perm i x)
  unfolding open_slot shape
  open_slot-Keeps path mode perm i x = (
    grind (arith, shape-reply os hdr, opened-Keeps),
    λ f. grind (arith, Fits-reply os hdr, opened-Keeps),
  )

  open_path-Keeps : (b : Buf) (path : List ℕ) (x : Ctx) → Keeps x (open_path os conf hdr b path x)
  unfolding open_path shape tnfs_notpermitted
  open_path-Keeps b path x = (
    grind (arith, shape-reply os hdr, open_slot-Keeps, conns-send_nosess os),
    λ f. grind (arith, Fits-reply os hdr, open_slot-Keeps, conns-send_nosess os),
  )

  pub tnfs_open-Keeps : (b : Buf) (x : Ctx) → Keeps x (tnfs_open os conf hdr b x)
  unfolding tnfs_open shape
  tnfs_open-Keeps b x = (
    grind (arith, shape-reply os hdr, open_path-Keeps),
    λ f. grind (arith, Fits-reply os hdr, open_path-Keeps),
  )

  pub tnfs_open_deprecated-Keeps :
      (b : Buf) (x : Ctx) → Keeps x (tnfs_open_deprecated os conf hdr b x)
  unfolding tnfs_open_deprecated shape
  tnfs_open_deprecated-Keeps b x = (
    grind (arith, shape-reply os hdr, tnfs_open-Keeps),
    λ f. grind (arith, Fits-reply os hdr, tnfs_open-Keeps),
  )

  read_bytes-Keeps : (i fd n : ℕ) (x : Ctx) → Keeps x (read_bytes os conf hdr i fd n x).1
  unfolding read_bytes atari_virtual_read shape
  read_bytes-Keeps i fd n x =
      let m = atari_meta x.sess i in
      let at = m.virtual_position in
      let count = min n (atr_total_size - at) in
      let end = read_regions os conf.bootsector m.real_file_size fd count true at count x.io in
      let quiet =
        conns-read_regions os conf.bootsector m.real_file_size fd count true at count x.io in
      elim (Bool-cases (atari_is_virtual_fd x.sess i)) [
        | inr file ↦ rw (file, read_bytes) (refl, λ f. f)
        | inl image ↦ elim (Bool-cases (leb atr_total_size at)) [
          | inl past ↦ rw (image, past, read_bytes, atari_virtual_read) (refl, λ f. f)
          | inr inside ↦
              rw (image, inside, read_bytes, atari_virtual_read) (virtual_end-Keeps i m x end quiet)
        ]
      ]

  pub tnfs_read-Keeps : (b : Buf) (x : Ctx) → Keeps x (tnfs_read os conf hdr b x)
  unfolding tnfs_read
  tnfs_read-Keeps b x = (
    grind (arith, shape-reply os hdr, read_reply-Keeps, read_bytes-Keeps),
    λ f. grind (arith, Fits-reply os hdr, read_reply-Keeps, read_bytes-Keeps),
  )

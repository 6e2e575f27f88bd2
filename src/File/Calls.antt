-- ===== src/File/Calls.antt =====
-- src/tnfs_file.c: what the commands on files leave true of all calls. A property of every call that
-- changes no file or directory, and of the OPENs that are allowed, is kept by the commands that a
-- read-only server carries out.
use tnfsd.Base.{
  ℕ, All, some, Option-cases, ltb, true, List, [], ◌∷◌, ◌≡◌, refl, arith, drop, inl, inr,
  Bool-cases,
}
use tnfsd.Os.{Os, Call, HoldsOfReads, Result, ok, err, OpenFlags, is_mutating, ReadBound}
use tnfsd.Tnfs.{Config, Session, Header, Buf, Ctx, byte_at}
use tnfsd.Auth.{is_open_allowed, tnfs_make_mode}
use tnfsd.Path.{tnfs_valid_filename}
use tnfsd.Endian.{tnfs16uint}
use tnfsd.Send.{tnfs_notpermitted}
use tnfsd.Send.Laws.{All-reply, All-send_nosess}
use tnfsd.Atari.{atari_is_virtual_fd, atari_virtual_lseek}
use tnfsd.Atari.Bounds.{atari_virtual_read_lem, atari_should_virtualize_lem}
use tnfsd.File.{bad_fd, fd_at}
use tnfsd.File.Open.{opened, open_slot, open_path, tnfs_open, tnfs_open_deprecated, word_at}
use tnfsd.File.Names.{tnfs_stat}
use tnfsd.File.Device.{device, tnfs_size, tnfs_free}
use tnfsd.File.Transfer.{
  clamp, read_bytes, read_reply, lseek_reply, tnfs_read, tnfs_lseek, tnfs_close,
}

-- If all calls had the property, all have it.
abbrev pub Harmless : (Call → Type 0) → Ctx → Ctx → Type 0
Harmless P x y = All P x.calls → All P y.calls

module _ (P : Call → Type 0) (reads : HoldsOfReads P) (os : Os) (conf : Config) (hdr : Header) where
  read_reply-Harmless : (r : Result (List ℕ)) (x : Ctx) → Harmless P x (read_reply os conf hdr r x)
  unfolding read_reply
  read_reply-Harmless (err e) x h = grind (arith, reads, All-reply os P reads hdr)
  read_reply-Harmless (ok []) x h = grind (arith, reads, All-reply os P reads hdr)
  read_reply-Harmless (ok (c ∷ cs)) x h = grind (arith, reads, All-reply os P reads hdr)

  lseek_reply-Harmless : (r : Result ℕ) (x : Ctx) → Harmless P x (lseek_reply os conf hdr r x)
  unfolding lseek_reply
  lseek_reply-Harmless (ok n) x h = grind (arith, reads, All-reply os P reads hdr)
  lseek_reply-Harmless (err e) x h = grind (arith, reads, All-reply os P reads hdr)

  pub tnfs_close-Harmless : (b : Buf) (x : Ctx) → Harmless P x (tnfs_close os conf hdr b x)
  unfolding tnfs_close is_mutating
  tnfs_close-Harmless b x h = grind (arith, reads, All-reply os P reads hdr)

  pub tnfs_lseek-Harmless : (b : Buf) (x : Ctx) → Harmless P x (tnfs_lseek os conf hdr b x)
  unfolding tnfs_lseek atari_virtual_lseek is_mutating
  tnfs_lseek-Harmless b x h = grind (arith, reads, All-reply os P reads hdr, lseek_reply-Harmless)

  pub tnfs_size-Harmless : (b : Buf) (x : Ctx) → Harmless P x (tnfs_size os conf hdr b x)
  unfolding tnfs_size device is_mutating
  tnfs_size-Harmless b x h = grind (arith, reads, All-reply os P reads hdr)

  pub tnfs_free-Harmless : (b : Buf) (x : Ctx) → Harmless P x (tnfs_free os conf hdr b x)
  unfolding tnfs_free device is_mutating
  tnfs_free-Harmless b x h = grind (arith, reads, All-reply os P reads hdr)

  pub tnfs_stat-Harmless : (b : Buf) (x : Ctx) → Harmless P x (tnfs_stat os conf hdr b x)
  unfolding tnfs_stat is_mutating
  tnfs_stat-Harmless b x h =
      grind (arith, reads, All-reply os P reads hdr, atari_should_virtualize_lem P reads)

  read_bytes-Harmless :
      (i fd n : ℕ) (x : Ctx) → ReadBound os → Harmless P x (read_bytes os conf hdr i fd n x).1
  unfolding read_bytes is_mutating
  read_bytes-Harmless i fd n x bound h = elim (Bool-cases (atari_is_virtual_fd x.sess i)) [
    | inl image ↦ rw image ((atari_virtual_read_lem P reads os conf i fd n x bound).2 h)
    | inr file ↦ rw file (reads _ refl, h)
  ]

  pub tnfs_read-Harmless :
      (b : Buf) (x : Ctx) → ReadBound os → Harmless P x (tnfs_read os conf hdr b x)
  unfolding tnfs_read
  tnfs_read-Harmless b x bound h = elim (Bool-cases (bad_fd x.sess b 3)) [
    | inl bad ↦ ground (arith, All-reply os P reads hdr 0x1C [] x)
    | inr good ↦
        let i = byte_at b 0 in
        let fd = fd_at x.sess i in
        let n = clamp (tnfs16uint (drop 1 b.bytes)) 512 in
        ground (
          arith,
          read_reply-Harmless (read_bytes os conf hdr i fd n x).0
              (read_bytes os conf hdr i fd n x).1 (read_bytes-Harmless i fd n x bound h),
          h,
          All-reply os P reads hdr 0x1C [] x,
        )
  ]

  opened-Harmless :
      (path : List ℕ) (mode : OpenFlags) (i fd : ℕ) (x : Ctx)
      → Harmless P x (opened os conf hdr path mode i fd x)
  unfolding opened is_mutating
  opened-Harmless path mode i fd x h =
      grind (arith, reads, All-reply os P reads hdr, atari_should_virtualize_lem P reads)

  open_slot-Harmless :
      (path : List ℕ) (mode : OpenFlags) (perm i : ℕ) (x : Ctx)
      → P (Call.open_file path mode perm)
      → Harmless P x (open_slot os conf hdr path mode perm i x)
  unfolding open_slot is_mutating
  open_slot-Harmless path mode perm i x q h =
      grind (arith, reads, All-reply os P reads hdr, opened-Harmless)

  -- An OPEN, where the property holds of any call that opens a path that may be opened.
  open_path-Harmless :
      (b : Buf) (path : List ℕ) (x : Ctx)
      → (is_open_allowed conf.read_only (word_at b 0) ≡ true
          → P (Call.open_file path (tnfs_make_mode (word_at b 0)) (word_at b 2)))
      → Harmless P x (open_path os conf hdr b path x)
  unfolding open_path tnfs_notpermitted
  open_path-Harmless b path x may h =
      elim (Bool-cases (is_open_allowed conf.read_only (word_at b 0))) [
        | inl allowed ↦
            let opens = may allowed in
            rw allowed (grind (arith, All-reply os P reads hdr, open_slot-Harmless))
        | inr refused ↦ rw refused (All-send_nosess os P reads _ x.io h)
      ]

  -- The property holds of every OPEN that may be carried out for a session.
  abbrev pub HoldsOfOpens : Session → Type 0
  HoldsOfOpens s =
      (b : Buf) (path : List ℕ)
      → tnfs_valid_filename conf s b 4 ≡ some path
      → is_open_allowed conf.read_only (word_at b 0) ≡ true
      → P (Call.open_file path (tnfs_make_mode (word_at b 0)) (word_at b 2))

  pub tnfs_open-Harmless :
      (b : Buf) (x : Ctx) → HoldsOfOpens x.sess → Harmless P x (tnfs_open os conf hdr b x)
  unfolding tnfs_open
  tnfs_open-Harmless b x may h = elim (Bool-cases (ltb b.bufsz 5)) [
    | inl short ↦ rw (short, tnfs_open) (All-reply os P reads hdr _ [] x h)
    | inr long ↦ elim (Option-cases (tnfs_valid_filename conf x.sess b 4)) [
      | inl refused ↦ rw (long, refused, tnfs_open) (All-reply os P reads hdr _ [] x h)
      | inr (path, e) ↦ rw (long, e, tnfs_open) (open_path-Harmless b path x (may b path e) h)
    ]
  ]

  pub tnfs_open_deprecated-Harmless :
      (b : Buf) (x : Ctx)
      → HoldsOfOpens x.sess
      → Harmless P x (tnfs_open_deprecated os conf hdr b x)
  unfolding tnfs_open_deprecated is_mutating
  tnfs_open_deprecated-Harmless b x may h =
      grind (arith, reads, All-reply os P reads hdr, tnfs_open-Harmless)

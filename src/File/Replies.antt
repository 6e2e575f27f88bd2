-- ===== src/File/Replies.antt =====
-- src/tnfs_file.c: every command on a file is answered by one message, whatever the branch, but
-- CHMOD, which is answered by none. The replies all fit a message: none is dropped for its size.
use tnfsd.Base.{
  ℕ, suc, List, [], ◌∷◌, ◌++◌, ◌≤◌, ◌≡◌, refl, arith, length, drop, inl, inr, Bool-cases,
}
use tnfsd.Os.{Reads, Reads-reads, Os, Result, ok, err, OpenFlags, Stat, sends, ReadBound}
use tnfsd.Tnfs.{Config, Header, Buf, Ctx, byte_at}
use tnfsd.Endian.{uint16tnfs, uint32tnfs, tnfs16uint}
use tnfsd.Send.{tnfs_notpermitted}
use tnfsd.Send.Laws.{sends-reply, sends-send_nosess}
use tnfsd.Atari.{atari_is_virtual_fd, atari_virtual_lseek}
use tnfsd.Atari.Bounds.{atari_virtual_read_lem, atari_should_virtualize_lem}
use tnfsd.File.{bad_fd, fd_at}
use tnfsd.File.Open.{opened, open_slot, open_path, tnfs_open, tnfs_open_deprecated}
use tnfsd.File.Names.{stat_bytes, tnfs_stat, tnfs_unlink, tnfs_rename}
use tnfsd.File.Device.{device, tnfs_size, tnfs_free, amount_bytes}
use tnfsd.File.Transfer.{
  clamp, read_bytes, read_reply, write_reply, lseek_reply, tnfs_read, tnfs_write, tnfs_lseek,
  tnfs_close,
}

-- One message was sent between the two states.
abbrev pub Answered : Ctx → Ctx → Type 0
Answered x y = sends y.calls ≡ suc (sends x.calls)

length-amount_bytes : (wide cmd amount : ℕ) → length (amount_bytes wide cmd amount) ≤ 8
unfolding amount_bytes
length-amount_bytes wide cmd amount = ground arith

clamp_le : (n limit : ℕ) → clamp n limit ≤ limit
clamp_le n limit = ground arith

length-stat_bytes : (st : Stat) (size : ℕ) → length (stat_bytes st size) ≡ 22
unfolding stat_bytes
length-stat_bytes st size = refl

module _ (os : Os) (conf : Config) (hdr : Header) where
  write_reply-Answered : (r : Result ℕ) (x : Ctx) → Answered x (write_reply os conf hdr r x)
  unfolding write_reply uint16tnfs
  write_reply-Answered (ok n) x = grind (arith, sends-reply os hdr)
  write_reply-Answered (err e) x = grind (arith, sends-reply os hdr)

  lseek_reply-Answered : (r : Result ℕ) (x : Ctx) → Answered x (lseek_reply os conf hdr r x)
  unfolding lseek_reply uint32tnfs
  lseek_reply-Answered (ok n) x = grind (arith, sends-reply os hdr)
  lseek_reply-Answered (err e) x = grind (arith, sends-reply os hdr)

  read_reply-Answered :
      (r : Result (List ℕ)) (x : Ctx)
      → ((bytes : List ℕ) → r ≡ ok bytes → length bytes ≤ 512)
      → Answered x (read_reply os conf hdr r x)
  unfolding read_reply uint16tnfs
  read_reply-Answered (err e) x h = grind (arith, sends-reply os hdr)
  read_reply-Answered (ok []) x h = grind (arith, sends-reply os hdr)
  read_reply-Answered (ok (c ∷ cs)) x h =
      sends-reply os hdr 0 (uint16tnfs (length (c ∷ cs)) ++ (c ∷ cs)) x
        (omega (arith, h (c ∷ cs) refl))

  read_bytes_lem :
      (i fd n : ℕ) (x : Ctx)
      → ReadBound os
      → ((bytes : List ℕ) → (read_bytes os conf hdr i fd n x).0 ≡ ok bytes → length bytes ≤ n)
        × (sends (read_bytes os conf hdr i fd n x).1.calls ≡ sends x.calls)
  unfolding read_bytes sends
  read_bytes_lem i fd n x bound = elim (Bool-cases (atari_is_virtual_fd x.sess i)) [
    | inl image ↦
        let v = atari_virtual_read_lem Reads Reads-reads os conf i fd n x bound in
        rw image (v.0, v.1)
    | inr file ↦ rw file (bound x.calls fd n, refl)
  ]

  pub tnfs_read-Answered :
      (b : Buf) (x : Ctx) → ReadBound os → Answered x (tnfs_read os conf hdr b x)
  unfolding tnfs_read
  tnfs_read-Answered b x bound = elim (Bool-cases (bad_fd x.sess b 3)) [
    | inl bad ↦ ground (arith, sends-reply os hdr 0x1C [] x)
    | inr good ↦
        let i = byte_at b 0 in
        let fd = fd_at x.sess i in
        let n = clamp (tnfs16uint (drop 1 b.bytes)) 512 in
        let v = read_bytes_lem i fd n x bound in
        ground (
          arith,
          read_reply-Answered (read_bytes os conf hdr i fd n x).0
              (read_bytes os conf hdr i fd n x).1
              (λ bytes e. omega (arith, v.0 bytes e, clamp_le (tnfs16uint (drop 1 b.bytes)) 512)),
          v.1,
        )
  ]

  pub tnfs_close-Answered : (b : Buf) (x : Ctx) → Answered x (tnfs_close os conf hdr b x)
  unfolding tnfs_close sends
  tnfs_close-Answered b x = grind (arith, sends-reply os hdr)

  pub tnfs_write-Answered : (b : Buf) (x : Ctx) → Answered x (tnfs_write os conf hdr b x)
  unfolding tnfs_write sends
  tnfs_write-Answered b x = grind (arith, sends-reply os hdr, write_reply-Answered)

  pub tnfs_lseek-Answered : (b : Buf) (x : Ctx) → Answered x (tnfs_lseek os conf hdr b x)
  unfolding tnfs_lseek atari_virtual_lseek sends
  tnfs_lseek-Answered b x = grind (arith, sends-reply os hdr, lseek_reply-Answered)

  pub tnfs_unlink-Answered : (b : Buf) (x : Ctx) → Answered x (tnfs_unlink os conf hdr b x)
  unfolding tnfs_unlink sends
  tnfs_unlink-Answered b x = grind (arith, sends-reply os hdr)

  pub tnfs_rename-Answered : (b : Buf) (x : Ctx) → Answered x (tnfs_rename os conf hdr b x)
  unfolding tnfs_rename sends
  tnfs_rename-Answered b x = grind (arith, sends-reply os hdr)

  pub tnfs_size-Answered : (b : Buf) (x : Ctx) → Answered x (tnfs_size os conf hdr b x)
  unfolding tnfs_size device sends
  tnfs_size-Answered b x = grind (arith, sends-reply os hdr, length-amount_bytes)

  pub tnfs_free-Answered : (b : Buf) (x : Ctx) → Answered x (tnfs_free os conf hdr b x)
  unfolding tnfs_free device sends
  tnfs_free-Answered b x = grind (arith, sends-reply os hdr, length-amount_bytes)

  pub tnfs_stat-Answered : (b : Buf) (x : Ctx) → Answered x (tnfs_stat os conf hdr b x)
  unfolding tnfs_stat sends
  tnfs_stat-Answered b x =
      grind (
        arith,
        sends-reply os hdr,
        length-stat_bytes,
        atari_should_virtualize_lem Reads Reads-reads,
      )

  opened-Answered :
      (path : List ℕ) (mode : OpenFlags) (i fd : ℕ) (x : Ctx)
      → Answered x (opened os conf hdr path mode i fd x)
  unfolding opened sends
  opened-Answered path mode i fd x =
      grind (arith, sends-reply os hdr, atari_should_virtualize_lem Reads Reads-reads)

  open_slot-Answered :
      (path : List ℕ) (mode : OpenFlags) (perm i : ℕ) (x : Ctx)
      → Answered x (open_slot os conf hdr path mode perm i x)
  unfolding open_slot sends
  open_slot-Answered path mode perm i x = grind (arith, sends-reply os hdr, opened-Answered)

  open_path-Answered :
      (b : Buf) (path : List ℕ) (x : Ctx) → Answered x (open_path os conf hdr b path x)
  unfolding open_path tnfs_notpermitted
  open_path-Answered b path x =
      grind (arith, sends-reply os hdr, sends-send_nosess os, open_slot-Answered)

  pub tnfs_open-Answered : (b : Buf) (x : Ctx) → Answered x (tnfs_open os conf hdr b x)
  unfolding tnfs_open
  tnfs_open-Answered b x = grind (arith, sends-reply os hdr, open_path-Answered)

  pub tnfs_open_deprecated-Answered :
      (b : Buf) (x : Ctx) → Answered x (tnfs_open_deprecated os conf hdr b x)
  unfolding tnfs_open_deprecated sends
  tnfs_open_deprecated-Answered b x = grind (arith, sends-reply os hdr, tnfs_open-Answered)

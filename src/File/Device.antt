-- ===== src/File/Device.antt =====
-- src/tnfs_file.c: `tnfs_size` and `tnfs_free`.
use tnfsd.Base.{ℕ, List, [], ◌*◌, ◌/◌, ◌%◌, ◌^◌, ◌==◌, if◌then◌else◌}
use tnfsd.Os.{Os, Call, ok, err, StatVfs}
use tnfsd.Tnfs.{Config, Header, Buf, Ctx, does, max_filepath}
use tnfsd.Endian.{uint32tnfs, uint64tnfs}
use tnfsd.Errortable.{tnfs_error, tnfs_success}
use tnfsd.Path.{get_root}
use tnfsd.Send.{reply}

abbrev pub tnfs_sizebytesdevice : ℕ
tnfs_sizebytesdevice = 0x32

abbrev pub tnfs_freebytesdevice : ℕ
tnfs_freebytesdevice = 0x33

unfoldable pub block_size : StatVfs → ℕ
block_size vfs = if vfs.f_frsize == 0 then vfs.f_bsize else vfs.f_frsize

-- The number in 8 bytes, or in kilobytes in 4.
unfoldable pub amount_bytes : ℕ → ℕ → ℕ → List ℕ
unfolding uint32tnfs uint64tnfs
amount_bytes wide cmd amount =
    if cmd == wide then uint64tnfs amount else uint32tnfs (amount / 1024 % 2 ^ 32)

module _ (os : Os) (conf : Config) (hdr : Header) where
  -- `tnfs_size` and `tnfs_free` differ in the number of blocks and in the command's wide form.
  unfoldable pub device : (StatVfs → ℕ) → ℕ → Ctx → Ctx
  device blocks wide x =
      let path = get_root conf x.sess max_filepath in
      let r = os.statvfs x.calls path in
      let y = does (Call.statvfs path) r x in
      elim r [
        | err e ↦ reply os hdr (tnfs_error y.errno) [] y
        | ok vfs ↦
            reply os hdr tnfs_success
              (amount_bytes wide hdr.cmd (blocks vfs * block_size vfs % 2 ^ 64)) y
      ]

  unfoldable pub tnfs_size : Buf → Ctx → Ctx
  unfolding device
  tnfs_size b x = device (λ vfs. vfs.f_blocks) tnfs_sizebytesdevice x

  unfoldable pub tnfs_free : Buf → Ctx → Ctx
  unfolding device
  tnfs_free b x = device (λ vfs. vfs.f_bavail) tnfs_freebytesdevice x

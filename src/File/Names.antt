-- ===== src/File/Names.antt =====
-- src/tnfs_file.c: `tnfs_stat`, `tnfs_unlink`, `tnfs_chmod` and `tnfs_rename`.
use tnfsd.Base.{
  ℕ, zero, suc, not, ◌||◌, Option, none, some, List, [], ◌∷◌, ◌++◌, ◌-◌, ◌%◌, ◌^◌, ◌==◌, ltb,
  if◌then◌else◌,
}
use tnfsd.Os.{Os, Call, Result, ok, err, Stat}
use tnfsd.Tnfs.{Config, Header, Buf, Ctx, last_byte, does}
use tnfsd.Endian.{uint16tnfs, uint32tnfs}
use tnfsd.Errortable.{tnfs_error, tnfs_success, tnfs_einval}
use tnfsd.Path.{tnfs_valid_filename}
use tnfsd.Atari.{atari_should_virtualize, atr_total_size, read_only_flags}
use tnfsd.Send.{reply}

-- The 22 bytes of a STAT reply; `report_size` stands for the size.
unfoldable pub stat_bytes : Stat → ℕ → List ℕ
unfolding uint16tnfs uint32tnfs
stat_bytes st report_size =
    uint16tnfs (st.st_mode % 2 ^ 16)
    ++ (uint16tnfs (st.st_uid % 2 ^ 16)
        ++ (uint16tnfs (st.st_gid % 2 ^ 16)
            ++ (uint32tnfs report_size
                ++ (uint32tnfs (st.st_atime % 2 ^ 32)
                    ++ (uint32tnfs (st.st_mtime % 2 ^ 32) ++ uint32tnfs (st.st_ctime % 2 ^ 32))))))

-- `memchr (buf, 0, bufsz)`, as an index from `i` on
unfoldable pub find_nul : List ℕ → ℕ → ℕ → Option ℕ
find_nul [] n i = none
find_nul (c ∷ cs) zero i = none
find_nul (c ∷ cs) (suc n) i = if c == 0 then some i else find_nul cs n (suc i)

module _ (os : Os) (conf : Config) (hdr : Header) where
  -- Success or the error of a call, as a reply with no payload.
  unfoldable pub outcome : Result (Unit {0}) → Ctx → Ctx
  outcome (ok done) x = reply os hdr tnfs_success [] x
  outcome (err e) x = reply os hdr (tnfs_error x.errno) [] x

  unfoldable pub stat_path : List ℕ → Ctx → Ctx
  stat_path path x =
      let r = os.stat x.calls path in
      let y = does (Call.stat path) r x in
      elim r [
        | err e ↦ reply os hdr (tnfs_error y.errno) [] y
        | ok st ↦
            let (virtual, io) = atari_should_virtualize os conf path read_only_flags y.io in
            reply os hdr tnfs_success
              (stat_bytes st (if virtual then atr_total_size else st.st_size % 2 ^ 32))
              (record y { io = io })
      ]

  unfoldable pub tnfs_stat : Buf → Ctx → Ctx
  unfolding stat_path
  tnfs_stat b x =
      if ltb b.bufsz 2
      then reply os hdr tnfs_einval [] x
      else elim (tnfs_valid_filename conf x.sess b 0) [
        | none ↦ reply os hdr tnfs_einval [] x
        | some path ↦ stat_path path x
      ]

  -- What `tnfs_unlink`, `tnfs_mkdir` and `tnfs_rmdir` share: the call on a valid file name.
  unfoldable pub on_path : (List ℕ → Ctx → Ctx) → Buf → Ctx → Ctx
  on_path act b x =
      if not (last_byte b == 0)
      then reply os hdr tnfs_einval [] x
      else elim (tnfs_valid_filename conf x.sess b 0) [
        | none ↦ reply os hdr tnfs_einval [] x
        | some path ↦ act path x
      ]

  unfoldable pub unlink_path : List ℕ → Ctx → Ctx
  unfolding outcome
  unlink_path path x = let r = os.unlink x.calls path in outcome r (does (Call.unlink path) r x)

  unfoldable pub tnfs_unlink : Buf → Ctx → Ctx
  unfolding on_path unlink_path
  tnfs_unlink b x = on_path unlink_path b x

  -- The body of the source is empty.
  unfoldable pub tnfs_chmod : Buf → Ctx → Ctx
  tnfs_chmod b x = x

  unfoldable pub rename_path : List ℕ → List ℕ → Ctx → Ctx
  unfolding outcome
  rename_path from to x =
      let r = os.rename x.calls from to in outcome r (does (Call.rename from to) r x)

  -- The second name starts behind the first one's terminator, at the index `to`.
  unfoldable pub rename_to : Buf → ℕ → Ctx → Ctx
  unfolding rename_path
  rename_to b to x = elim (tnfs_valid_filename conf x.sess b 0) [
    | none ↦ reply os hdr tnfs_einval [] x
    | some from ↦ elim (tnfs_valid_filename conf x.sess b to) [
      | none ↦ reply os hdr tnfs_einval [] x
      | some target ↦ rename_path from target x
    ]
  ]

  unfoldable pub tnfs_rename : Buf → Ctx → Ctx
  unfolding rename_to find_nul
  tnfs_rename b x = elim (find_nul b.bytes b.bufsz 0) [
    | none ↦ reply os hdr tnfs_einval [] x
    | some at ↦
        if at == b.bufsz - 1 || not (last_byte b == 0)
        then reply os hdr tnfs_einval [] x
        else rename_to b (suc at) x
  ]

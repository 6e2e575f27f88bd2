-- ===== src/Server/Keeps.antt =====
-- src/datagram.c: what every command of the tables keeps.
use tnfsd.Base.{ℕ, some, [], ◌==◌, ◌≡◌, arith, inl, inr, Bool-cases}
use tnfsd.Os.{Os}
use tnfsd.Tnfs.{Config, Header, Buf, Ctx}
use tnfsd.Send.{tnfs_badcommand}
use tnfsd.Shape.{Keeps, Keeps-reply}
use tnfsd.File.Keeps.{
  tnfs_open_deprecated-Keeps, tnfs_read-Keeps, tnfs_write-Keeps, tnfs_close-Keeps, tnfs_stat-Keeps,
  tnfs_lseek-Keeps, tnfs_unlink-Keeps, tnfs_chmod-Keeps, tnfs_rename-Keeps, tnfs_open-Keeps,
  tnfs_size-Keeps, tnfs_free-Keeps,
}
use tnfsd.Dir.Keeps.{
  tnfs_opendir-Keeps, tnfs_readdir-Keeps, tnfs_closedir-Keeps, tnfs_mkdir-Keeps, tnfs_rmdir-Keeps,
  tnfs_telldir-Keeps, tnfs_seekdir-Keeps, tnfs_opendirx-Keeps, tnfs_readdirx-Keeps,
}
use tnfsd.Server.Tables.{
  CmdFunc, cmd_class, cmd_index, class_directory, class_file, class_device, dircmd, filecmd, devcmd,
  cmdfunc,
}
use tnfsd.Server.Answers.{AllAt, AllAt-get_elem?}

module _ (os : Os) (conf : Config) (hdr : Header) where
  abbrev Handler : CmdFunc → Type 0
  Handler f = (b : Buf) (x : Ctx) → Keeps x (f b x)

  dircmd-Keeps : AllAt (λ i f. Handler f) (dircmd os conf hdr)
  dircmd-Keeps = (
    tnfs_opendir-Keeps os conf hdr,
    (
      tnfs_readdir-Keeps os conf hdr,
      (
        tnfs_closedir-Keeps os conf hdr,
        (
          tnfs_mkdir-Keeps os conf hdr,
          (
            tnfs_rmdir-Keeps os conf hdr,
            (
              tnfs_telldir-Keeps os conf hdr,
              (
                tnfs_seekdir-Keeps os conf hdr,
                (tnfs_opendirx-Keeps os conf hdr, (tnfs_readdirx-Keeps os conf hdr, tt)),
              ),
            ),
          ),
        ),
      ),
    ),
  )

  filecmd-Keeps : AllAt (λ i f. Handler f) (filecmd os conf hdr)
  filecmd-Keeps = (
    tnfs_open_deprecated-Keeps os conf hdr,
    (
      tnfs_read-Keeps os conf hdr,
      (
        tnfs_write-Keeps os conf hdr,
        (
          tnfs_close-Keeps os conf hdr,
          (
            tnfs_stat-Keeps os conf hdr,
            (
              tnfs_lseek-Keeps os conf hdr,
              (
                tnfs_unlink-Keeps os conf hdr,
                (
                  tnfs_chmod-Keeps os conf hdr,
                  (tnfs_rename-Keeps os conf hdr, (tnfs_open-Keeps os conf hdr, tt)),
                ),
              ),
            ),
          ),
        ),
      ),
    ),
  )

  devcmd-Keeps : AllAt (λ i f. Handler f) (devcmd os conf hdr)
  devcmd-Keeps = (
    tnfs_size-Keeps os conf hdr,
    (tnfs_free-Keeps os conf hdr, (tnfs_size-Keeps os conf hdr, (tnfs_free-Keeps os conf hdr, tt))),
  )

  -- No directory, file or device command changes whose session it is, the size of its tables or the
  -- connections, and the message that it keeps fits its buffer, whatever its data.
  pub cmdfunc-Keeps :
      (cmd : ℕ) (f : CmdFunc) (b : Buf) (x : Ctx)
      → cmdfunc os conf hdr cmd ≡ some f
      → Keeps x (f b x)
  unfolding cmdfunc
  cmdfunc-Keeps cmd f b x e = elim (Bool-cases (cmd_class cmd == class_directory)) [
    | inl dir ↦
        AllAt-get_elem? (λ i g. Handler g) (cmd_index cmd) (dircmd os conf hdr) f dircmd-Keeps
          (ground arith) b x
    | inr not_dir ↦ elim (Bool-cases (cmd_class cmd == class_file)) [
      | inl file ↦
          AllAt-get_elem? (λ i g. Handler g) (cmd_index cmd) (filecmd os conf hdr) f filecmd-Keeps
            (ground arith) b x
      | inr not_file ↦ elim (Bool-cases (cmd_class cmd == class_device)) [
        | inl dev ↦
            AllAt-get_elem? (λ i g. Handler g) (cmd_index cmd) (devcmd os conf hdr) f devcmd-Keeps
              (ground arith) b x
        | inr not_dev ↦ absurd (ground arith)
      ]
    ]
  ]

  pub badcommand-Keeps : (x : Ctx) → Keeps x (tnfs_badcommand os hdr x)
  unfolding tnfs_badcommand
  badcommand-Keeps x = Keeps-reply os hdr _ [] x

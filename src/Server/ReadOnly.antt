-- ===== src/Server/ReadOnly.antt =====
-- src/datagram.c, src/auth.c: a read-only server changes no file or directory, whatever it receives.
use tnfsd.Base.{
  ℕ, Bool, true, some, List, ◌+◌, ◌<◌, ◌==◌, ◌≡◌, subst, arith, inl, inr, Bool-cases, get_or,
}
use tnfsd.Os.{Os, ReadBound, Reads, Reads-reads, ReadsOnly, is_mutating}
use tnfsd.Tnfs.{Config, Session, Header, Buf, Ctx}
use tnfsd.Auth.{is_cmd_allowed, is_open_allowed, opens_for_write-tnfs_make_mode}
use tnfsd.File.Open.{word_at}
use tnfsd.File.Calls.{
  Harmless, HoldsOfOpens, tnfs_open_deprecated-Harmless, tnfs_read-Harmless, tnfs_close-Harmless,
  tnfs_stat-Harmless, tnfs_lseek-Harmless, tnfs_open-Harmless, tnfs_size-Harmless,
  tnfs_free-Harmless,
}
use tnfsd.Dir.Calls.{
  tnfs_opendir-Harmless, tnfs_readdir-Harmless, tnfs_closedir-Harmless, tnfs_telldir-Harmless,
  tnfs_seekdir-Harmless, tnfs_opendirx-Harmless, tnfs_readdirx-Harmless,
}
use tnfsd.Sessions.{Server}
use tnfsd.Server.Tables.{
  CmdFunc, cmd_class, cmd_index, class_directory, class_file, class_device, dircmd, filecmd, devcmd,
  cmdfunc,
}
use tnfsd.Server.Decode.{Addr, read_header, data_of, tnfs_decode}
use tnfsd.Server.Calls.{tnfs_decode-Harmless}
use tnfsd.Server.Answers.{AllAt, AllAt-get_elem?}

-- The index of a command of its class that a read-only server lets through.
abbrev lets : ℕ → ℕ → Bool
lets class i = is_cmd_allowed true (class + i)

lets-cmd :
    (cmd class : ℕ)
    → cmd < 256
    → (cmd_class cmd == class) ≡ true
    → is_cmd_allowed true cmd ≡ true
    → lets class (cmd_index cmd) ≡ true
lets-cmd cmd class byte e h = subst (λ c. is_cmd_allowed true c ≡ true) (ground arith) h

module _ (os : Os) (conf : Config) (hdr : Header) (bound : ReadBound os)
    (read_only : conf.read_only ≡ true) where
  opens-Reads : (s : Session) → HoldsOfOpens Reads Reads-reads os conf hdr s
  unfolding is_mutating
  opens-Reads s b path named allowed =
      opens_for_write-tnfs_make_mode (word_at b 0)
        (subst (λ r. is_open_allowed r (word_at b 0) ≡ true) read_only allowed)

  abbrev HarmlessAt : ℕ → ℕ → CmdFunc → Type 0
  HarmlessAt class i f = lets class i ≡ true → (b : Buf) (x : Ctx) → Harmless Reads x (f b x)

  dircmd-Harmless : AllAt (HarmlessAt class_directory) (dircmd os conf hdr)
  unfolding is_cmd_allowed
  dircmd-Harmless = (
    λ _. tnfs_opendir-Harmless Reads Reads-reads os conf hdr,
    (
      λ _. tnfs_readdir-Harmless Reads Reads-reads os conf hdr,
      (
        λ _. tnfs_closedir-Harmless Reads Reads-reads os conf hdr,
        (
          λ e. absurd (ground arith),
          (
            λ e. absurd (ground arith),
            (
              λ _. tnfs_telldir-Harmless Reads Reads-reads os conf hdr,
              (
                λ _. tnfs_seekdir-Harmless Reads Reads-reads os conf hdr,
                (
                  λ _. tnfs_opendirx-Harmless Reads Reads-reads os conf hdr,
                  (λ _. tnfs_readdirx-Harmless Reads Reads-reads os conf hdr, tt),
                ),
              ),
            ),
          ),
        ),
      ),
    ),
  )

  devcmd-Harmless : AllAt (HarmlessAt class_device) (devcmd os conf hdr)
  devcmd-Harmless = (
    λ _. tnfs_size-Harmless Reads Reads-reads os conf hdr,
    (
      λ _. tnfs_free-Harmless Reads Reads-reads os conf hdr,
      (
        λ _. tnfs_size-Harmless Reads Reads-reads os conf hdr,
        (λ _. tnfs_free-Harmless Reads Reads-reads os conf hdr, tt),
      ),
    ),
  )

  filecmd-Harmless : AllAt (HarmlessAt class_file) (filecmd os conf hdr)
  unfolding is_cmd_allowed
  filecmd-Harmless = (
    λ _ b x. tnfs_open_deprecated-Harmless Reads Reads-reads os conf hdr b x (opens-Reads x.sess),
    (
      λ _ b x. tnfs_read-Harmless Reads Reads-reads os conf hdr b x bound,
      (
        λ e. absurd (ground arith),
        (
          λ _. tnfs_close-Harmless Reads Reads-reads os conf hdr,
          (
            λ _. tnfs_stat-Harmless Reads Reads-reads os conf hdr,
            (
              λ _. tnfs_lseek-Harmless Reads Reads-reads os conf hdr,
              (
                λ e. absurd (ground arith),
                (
                  λ e. absurd (ground arith),
                  (
                    λ e. absurd (ground arith),
                    (
                      λ _ b x.
                          tnfs_open-Harmless Reads Reads-reads os conf hdr b x (opens-Reads x.sess),
                      tt,
                    ),
                  ),
                ),
              ),
            ),
          ),
        ),
      ),
    ),
  )

  cmdfunc-Harmless :
      (cmd : ℕ) (f : CmdFunc) (b : Buf) (x : Ctx)
      → cmd < 256
      → is_cmd_allowed true cmd ≡ true
      → cmdfunc os conf hdr cmd ≡ some f
      → Harmless Reads x (f b x)
  unfolding cmdfunc
  cmdfunc-Harmless cmd f b x byte allowed e = elim (Bool-cases (cmd_class cmd == class_directory)) [
    | inl dir ↦
        AllAt-get_elem? (HarmlessAt class_directory) (cmd_index cmd) (dircmd os conf hdr) f
          dircmd-Harmless (ground arith) (lets-cmd cmd class_directory byte dir allowed) b x
    | inr not_dir ↦ elim (Bool-cases (cmd_class cmd == class_file)) [
      | inl file ↦
          AllAt-get_elem? (HarmlessAt class_file) (cmd_index cmd) (filecmd os conf hdr) f
            filecmd-Harmless (ground arith) (lets-cmd cmd class_file byte file allowed) b x
      | inr not_file ↦ elim (Bool-cases (cmd_class cmd == class_device)) [
        | inl dev ↦
            AllAt-get_elem? (HarmlessAt class_device) (cmd_index cmd) (devcmd os conf hdr) f
              devcmd-Harmless (ground arith) (lets-cmd cmd class_device byte dev allowed) b x
        | inr not_dev ↦ absurd (ground arith)
      ]
    ]
  ]

module _ (os : Os) (conf : Config) (bound : ReadBound os) (read_only : conf.read_only ≡ true) where
  -- If `read` gives no more bytes than it is asked for and the command is a byte: a read-only
  -- server, whatever it receives from whom in whatever state, makes no call that may create,
  -- write, truncate, rename or remove a file or directory, if none was made before.
  pub tnfs_decode-ReadsOnly :
      (a : Addr) (cli_fd rxbytes : ℕ) (rxbuf : List ℕ) (srv : Server)
      → get_or rxbuf 3 0 < 256
      → ReadsOnly srv.calls
      → ReadsOnly (tnfs_decode os conf a cli_fd rxbytes rxbuf srv).calls
  unfolding read_header
  tnfs_decode-ReadsOnly a cli_fd rxbytes rxbuf srv byte =
      tnfs_decode-Harmless Reads Reads-reads os conf a cli_fd rxbytes rxbuf srv
        (λ i s found allowed f io e.
          cmdfunc-Harmless os conf (read_header a cli_fd rxbuf) bound read_only (get_or rxbuf 3 0) f
            (data_of rxbytes rxbuf) _ byte
            (subst (λ r. is_cmd_allowed r (get_or rxbuf 3 0) ≡ true) read_only allowed) e)

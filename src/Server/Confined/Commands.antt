-- ===== src/Server/Confined/Commands.antt =====
-- src/datagram.c: whatever request is received, what is changed lies below the root of its session.
use tnfsd.Base.{List, none, Option, subst, ℕ, ◌==◌, some, ◌≡◌, arith, inl, inr, Bool-cases, All}
use tnfsd.Os.{Os, Call, HoldsOfReads, ReadBound}
use tnfsd.Tnfs.{Session, Config, Header, Buf, Ctx}
use tnfsd.File.Calls.{
  Harmless, HoldsOfOpens, tnfs_open_deprecated-Harmless, tnfs_read-Harmless, tnfs_close-Harmless,
  tnfs_stat-Harmless, tnfs_lseek-Harmless, tnfs_open-Harmless, tnfs_size-Harmless,
  tnfs_free-Harmless,
}
use tnfsd.Dir.Calls.{
  tnfs_opendir-Harmless, tnfs_readdir-Harmless, tnfs_closedir-Harmless, tnfs_telldir-Harmless,
  tnfs_seekdir-Harmless, tnfs_opendirx-Harmless, tnfs_readdirx-Harmless,
}
use tnfsd.Endian.{tnfs16uint}
use tnfsd.Sessions.{Server, tnfs_findsession_sid}
use tnfsd.Server.Decode.{Addr, read_header, data_of, tnfs_decode}
use tnfsd.Server.Calls.{KeptFor, touched, tnfs_decode-Harmless}
use tnfsd.Server.Tables.{
  CmdFunc, cmd_class, cmd_index, class_directory, class_file, class_device, dircmd, filecmd, devcmd,
  cmdfunc,
}
use tnfsd.Server.Answers.{AllAt, AllAt-get_elem?}
use tnfsd.File.Names.{tnfs_chmod}
use tnfsd.Server.Confined.{
  Opens-Inside, root_prefix, Confined, reads-Confined, Allowed, All-Made, valid-Inside,
  tnfs_write-Harmless, tnfs_unlink-Harmless, tnfs_mkdir-Harmless, tnfs_rmdir-Harmless,
  tnfs_rename-Harmless,
}

module _ (os : Os) (conf : Config) (hdr : Header) (P : Call → Type 0) (reads : HoldsOfReads P)
    (x : Ctx) (may : (c : Call) → Confined (root_prefix conf x.sess) c → P c)
    (bound : ReadBound os) where
  opens-Confined : HoldsOfOpens P reads os conf hdr x.sess
  opens-Confined b path named allowed =
      may _
        (Opens-Inside (root_prefix conf x.sess) path _ (valid-Inside conf x.sess b 4 path named))

  abbrev HarmlessAt : ℕ → CmdFunc → Type 0
  HarmlessAt i f = (b : Buf) → Harmless P x (f b x)

  dircmd-Harmless : AllAt HarmlessAt (dircmd os conf hdr)
  dircmd-Harmless = (
    λ b. tnfs_opendir-Harmless P reads os conf hdr b x,
    (
      λ b. tnfs_readdir-Harmless P reads os conf hdr b x,
      (
        λ b. tnfs_closedir-Harmless P reads os conf hdr b x,
        (
          tnfs_mkdir-Harmless os conf hdr P reads x may,
          (
            tnfs_rmdir-Harmless os conf hdr P reads x may,
            (
              λ b. tnfs_telldir-Harmless P reads os conf hdr b x,
              (
                λ b. tnfs_seekdir-Harmless P reads os conf hdr b x,
                (
                  λ b. tnfs_opendirx-Harmless P reads os conf hdr b x,
                  (λ b. tnfs_readdirx-Harmless P reads os conf hdr b x, tt),
                ),
              ),
            ),
          ),
        ),
      ),
    ),
  )

  filecmd-Harmless : AllAt HarmlessAt (filecmd os conf hdr)
  unfolding tnfs_chmod
  filecmd-Harmless = (
    λ b. tnfs_open_deprecated-Harmless P reads os conf hdr b x opens-Confined,
    (
      λ b. tnfs_read-Harmless P reads os conf hdr b x bound,
      (
        λ b. tnfs_write-Harmless os conf hdr P reads b x (λ fd bytes. may _ tt),
        (
          λ b. tnfs_close-Harmless P reads os conf hdr b x,
          (
            λ b. tnfs_stat-Harmless P reads os conf hdr b x,
            (
              λ b. tnfs_lseek-Harmless P reads os conf hdr b x,
              (
                tnfs_unlink-Harmless os conf hdr P reads x may,
                (
                  λ b h. h,
                  (
                    tnfs_rename-Harmless os conf hdr P reads x may,
                    (λ b. tnfs_open-Harmless P reads os conf hdr b x opens-Confined, tt),
                  ),
                ),
              ),
            ),
          ),
        ),
      ),
    ),
  )

  devcmd-Harmless : AllAt HarmlessAt (devcmd os conf hdr)
  devcmd-Harmless = (
    λ b. tnfs_size-Harmless P reads os conf hdr b x,
    (
      λ b. tnfs_free-Harmless P reads os conf hdr b x,
      (
        λ b. tnfs_size-Harmless P reads os conf hdr b x,
        (λ b. tnfs_free-Harmless P reads os conf hdr b x, tt),
      ),
    ),
  )

  cmdfunc-Harmless :
      (cmd : ℕ) (f : CmdFunc) (b : Buf) → cmdfunc os conf hdr cmd ≡ some f → Harmless P x (f b x)
  unfolding cmdfunc
  cmdfunc-Harmless cmd f b e = elim (Bool-cases (cmd_class cmd == class_directory)) [
    | inl dir ↦
        AllAt-get_elem? HarmlessAt (cmd_index cmd) (dircmd os conf hdr) f dircmd-Harmless
          (ground arith) b
    | inr not_dir ↦ elim (Bool-cases (cmd_class cmd == class_file)) [
      | inl file ↦
          AllAt-get_elem? HarmlessAt (cmd_index cmd) (filecmd os conf hdr) f filecmd-Harmless
            (ground arith) b
      | inr not_file ↦ elim (Bool-cases (cmd_class cmd == class_device)) [
        | inl dev ↦
            AllAt-get_elem? HarmlessAt (cmd_index cmd) (devcmd os conf hdr) f devcmd-Harmless
              (ground arith) b
        | inr not_dev ↦ absurd (ground arith)
      ]
    ]
  ]

module _ (os : Os) (conf : Config) (bound : ReadBound os) where
  found_same :
      (o : Option (ℕ × Session)) (i j : ℕ) (s t : Session)
      → o ≡ some (i, s)
      → o ≡ some (j, t)
      → s ≡ t
  found_same none i j s t e d = absurd cc
  found_same (some (k, r)) i j s t e d = cc

  -- If `read` gives no more bytes than it is asked for, and a session has the ID of a request:
  -- whatever the request is, of the calls made when it is done each one was made before, or is none
  -- that changes a file or a directory by its name, or each name that it is given has the components
  -- of the session's root, and below them none that is "..". The root is the one that the session
  -- has, whatever MOUNT took, cut to what fits the buffer for a path: nothing is said of its own
  -- components.
  pub tnfs_decode-Confined :
      (a : Addr) (cli_fd rxbytes : ℕ) (rxbuf : List ℕ) (srv : Server) (i : ℕ) (s : Session)
      → tnfs_findsession_sid (tnfs16uint rxbuf) srv.slist ≡ some (i, s)
      → All
          (Allowed (root_prefix conf s) srv.calls)
          (tnfs_decode os conf a cli_fd rxbytes rxbuf srv).calls
  unfolding tnfsd.Path.get_root tnfsd.Path.root_of
  tnfs_decode-Confined a cli_fd rxbytes rxbuf srv i s found =
      let P = Allowed (root_prefix conf s) srv.calls in
      let reads : HoldsOfReads P = λ c r. inr (reads-Confined (root_prefix conf s) c r) in
      let hdr = read_header a cli_fd rxbuf in
      let b = data_of rxbytes rxbuf in
      let kept : KeptFor P reads os conf hdr b (touched os hdr srv s) = λ f io e.
        cmdfunc-Harmless os conf hdr P reads (record { io = io; sess = touched os hdr srv s })
          (λ c q. inr q) bound hdr.cmd f b e in
      tnfs_decode-Harmless P reads os conf a cli_fd rxbytes rxbuf srv
        (λ j t found' allowed.
          subst (λ t. KeptFor P reads os conf hdr b (touched os hdr srv t))
            (found_same _ i j s t found found') kept)
        (All-Made P srv.calls (λ c m. inl m))

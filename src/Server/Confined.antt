-- ===== src/Server/Confined.antt =====
-- src/datagram.c, src/tnfs_file.c, src/directory.c: what a command changes lies below the root of its
-- session.
pub mod Commands
use tnfsd.Base.{
  ℕ, Bool, true, false, not, ◌||◌, ◌==◌, ◌-◌, ◌<◌, Option, none, some, Option-cases, List, [], ◌∷◌,
  ◌++◌, ◌≡◌, ◌⊎◌, ◌∙◌, refl, sym, ap, subst, suc, arith, inl, inr, Bool-cases, All, length,
  get_elem?, take, drop, ◌&&◌,
}
use tnfsd.Os.{
  Os, Call, OpenFlags, Result, ok, err, is_mutating, opens_for_write, HoldsOfReads, ReadBound,
}
use tnfsd.Tnfs.{max_filepath, Config, Session, Header, Buf, Ctx, last_byte, byte_at, does}
use tnfsd.Path.{get_root, tnfs_valid_filename}
use tnfsd.Path.Components.{components}
use tnfsd.Path.Confinement.{NoneClimbs, tnfs_valid_filename-below}
use tnfsd.Send.Laws.{All-reply}
use tnfsd.File.Calls.{
  Harmless, HoldsOfOpens, tnfs_open_deprecated-Harmless, tnfs_read-Harmless, tnfs_close-Harmless,
  tnfs_stat-Harmless, tnfs_lseek-Harmless, tnfs_open-Harmless, tnfs_size-Harmless,
  tnfs_free-Harmless,
}
use tnfsd.Dir.Calls.{
  tnfs_opendir-Harmless, tnfs_readdir-Harmless, tnfs_closedir-Harmless, tnfs_telldir-Harmless,
  tnfs_seekdir-Harmless, tnfs_opendirx-Harmless, tnfs_readdirx-Harmless,
}
use tnfsd.Server.Tables.{
  CmdFunc, cmd_class, cmd_index, class_directory, class_file, class_device, dircmd, filecmd, devcmd,
  cmdfunc,
}
use tnfsd.Server.Answers.{AllAt, AllAt-get_elem?}
use tnfsd.File.{validate_fd, bad_fd, fd_at}
use tnfsd.File.Names.{
  outcome, on_path, unlink_path, tnfs_unlink, rename_path, rename_to, tnfs_rename, tnfs_chmod,
}
use tnfsd.File.Transfer.{write_size, write_reply, tnfs_write}
use tnfsd.Dir.Commands.{mkdir_path, rmdir_path, tnfs_mkdir, tnfs_rmdir}
use tnfsd.Sessions.Closing.{Made}

-- The path's components are the root's and, below them, some of which none is "..".
abbrev pub Inside : List ℕ → List ℕ → Type 0
Inside root path =
    (below : List (List ℕ)) × (components path ≡ components root ++ below) × NoneClimbs below

abbrev Opens : List ℕ → List ℕ → Bool → Type 0
Opens root path true = Inside root path
Opens root path false = Unit {0}

-- If a call changes a file or directory by its name, that is inside the root.
abbrev pub Confined : List ℕ → Call → Type 0
Confined root (Call.open_file path flags mode) = Opens root path (opens_for_write flags)
Confined root (Call.unlink path) = Inside root path
Confined root (Call.rename from to) = Inside root from × Inside root to
Confined root (Call.mkdir path mode) = Inside root path
Confined root (Call.rmdir path) = Inside root path
Confined root _ = Unit {0}

Opens-false : (root path : List ℕ) (b : Bool) → b ≡ false → Opens root path b
Opens-false root path true e = absurd cc
Opens-false root path false e = tt

pub Opens-Inside : (root path : List ℕ) (b : Bool) → Inside root path → Opens root path b
Opens-Inside root path true q = q
Opens-Inside root path false q = tt

pub reads-Confined : (root : List ℕ) → HoldsOfReads (Confined root)
unfolding is_mutating
reads-Confined root (Call.open_file path flags mode) e =
    Opens-false root path (opens_for_write flags) e
reads-Confined root (Call.unlink path) e = absurd cc
reads-Confined root (Call.rename from to) e = absurd cc
reads-Confined root (Call.mkdir path mode) e = absurd cc
reads-Confined root (Call.rmdir path) e = absurd cc
reads-Confined root _ e = tt

-- The call was made before, or it is confined.
abbrev pub Allowed : List ℕ → List Call → Call → Type 0
Allowed root before c = Made c before ⊎ Confined root c

pub All-Made : (P : Call → Type 0) (cs : List Call) → ((c : Call) → Made c cs → P c) → All P cs
All-Made P [] h = tt
All-Made P (c ∷ cs) h = (h c (0, refl), All-Made P cs (λ d m. h d (suc m.0, m.1)))

-- The root of the session's paths, as much of it as fits the buffer.
abbrev pub root_prefix : Config → Session → List ℕ
root_prefix conf s = get_root conf s max_filepath

pub valid-Inside :
    (conf : Config) (s : Session) (b : Buf) (i : ℕ) (path : List ℕ)
    → tnfs_valid_filename conf s b i ≡ some path
    → Inside (root_prefix conf s) path
valid-Inside conf s b i path e = tnfs_valid_filename-below conf s b i path e

module _ (os : Os) (conf : Config) (hdr : Header) (P : Call → Type 0) (reads : HoldsOfReads P) where
  outcome-Harmless : (r : Result (Unit {0})) (x : Ctx) → Harmless P x (outcome os conf hdr r x)
  unfolding outcome
  outcome-Harmless (ok u) x h = All-reply os P reads hdr _ [] x h
  outcome-Harmless (err e) x h = All-reply os P reads hdr _ [] x h

  on_path-Harmless :
      (act : List ℕ → Ctx → Ctx) (b : Buf) (x : Ctx)
      → ((path : List ℕ)
          → tnfs_valid_filename conf x.sess b 0 ≡ some path
          → Harmless P x (act path x))
      → Harmless P x (on_path os conf hdr act b x)
  unfolding on_path
  on_path-Harmless act b x may h = elim (Bool-cases (not (last_byte b == 0))) [
    | inl open_end ↦ rw (open_end, on_path) (All-reply os P reads hdr _ [] x h)
    | inr ended ↦ elim (Option-cases (tnfs_valid_filename conf x.sess b 0)) [
      | inl refused ↦ rw (ended, refused, on_path) (All-reply os P reads hdr _ [] x h)
      | inr (path, e) ↦ rw (ended, e, on_path) (may path e h)
    ]
  ]

  write_reply-Harmless : (r : Result ℕ) (x : Ctx) → Harmless P x (write_reply os conf hdr r x)
  unfolding write_reply
  write_reply-Harmless (err e) x h = All-reply os P reads hdr _ [] x h
  write_reply-Harmless (ok n) x h = grind (arith, All-reply os P reads hdr)

  pub tnfs_write-Harmless :
      (b : Buf) (x : Ctx)
      → ((fd : ℕ) (bytes : List ℕ) → P (Call.write_file fd bytes))
      → Harmless P x (tnfs_write os conf hdr b x)
  unfolding tnfs_write validate_fd
  tnfs_write-Harmless b x may h = elim (Bool-cases (bad_fd x.sess b 4)) [
    | inl bad ↦ rw (bad, tnfs_write, validate_fd) (All-reply os P reads hdr _ [] x h)
    | inr good ↦ elim (Bool-cases (fd_at x.sess (byte_at b 0) == 0)) [
      | inl closed ↦ rw (good, tnfs_write, validate_fd, closed) h
      | inr in_use ↦
          let fd = fd_at x.sess (byte_at b 0) in
          let bytes = take (write_size os conf hdr b) (drop 3 b.bytes) in
          let r = os.write_file x.calls fd bytes in
          rw (good, tnfs_write, validate_fd, in_use)
            (write_reply-Harmless r (does (Call.write_file fd bytes) r x) (may fd bytes, h))
    ]
  ]

  -- The commands that change something by its name, where the property holds of such calls on what
  -- is inside the root.
  module _ (x : Ctx) (may : (c : Call) → Confined (root_prefix conf x.sess) c → P c) where
    pub tnfs_unlink-Harmless : (b : Buf) → Harmless P x (tnfs_unlink os conf hdr b x)
    unfolding tnfs_unlink unlink_path
    tnfs_unlink-Harmless b =
        on_path-Harmless (unlink_path os conf hdr) b x
          (λ path e h. outcome-Harmless _ _ (may _ (valid-Inside conf x.sess b 0 path e), h))

    pub tnfs_mkdir-Harmless : (b : Buf) → Harmless P x (tnfs_mkdir os conf hdr b x)
    unfolding tnfs_mkdir mkdir_path
    tnfs_mkdir-Harmless b =
        on_path-Harmless (mkdir_path os conf hdr) b x
          (λ path e h. outcome-Harmless _ _ (may _ (valid-Inside conf x.sess b 0 path e), h))

    pub tnfs_rmdir-Harmless : (b : Buf) → Harmless P x (tnfs_rmdir os conf hdr b x)
    unfolding tnfs_rmdir rmdir_path
    tnfs_rmdir-Harmless b =
        on_path-Harmless (rmdir_path os conf hdr) b x
          (λ path e h. outcome-Harmless _ _ (may _ (valid-Inside conf x.sess b 0 path e), h))

    rename_to-Harmless : (b : Buf) (to : ℕ) → Harmless P x (rename_to os conf hdr b to x)
    unfolding rename_to rename_path
    rename_to-Harmless b to h = elim (Option-cases (tnfs_valid_filename conf x.sess b 0)) [
      | inl refused ↦ rw (refused, rename_to) (All-reply os P reads hdr _ [] x h)
      | inr (from, e) ↦ elim (Option-cases (tnfs_valid_filename conf x.sess b to)) [
        | inl refused ↦ rw (e, refused, rename_to) (All-reply os P reads hdr _ [] x h)
        | inr (target, d) ↦
            rw (e, d, rename_to, rename_path)
              (outcome-Harmless _ _ (
                may _ (valid-Inside conf x.sess b 0 from e, valid-Inside conf x.sess b to target d),
                h,
              ))
      ]
    ]

    pub tnfs_rename-Harmless : (b : Buf) → Harmless P x (tnfs_rename os conf hdr b x)
    unfolding tnfs_rename
    tnfs_rename-Harmless b h = grind (arith, All-reply os P reads hdr, rename_to-Harmless)

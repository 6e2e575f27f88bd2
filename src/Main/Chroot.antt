-- ===== src/Main/Chroot.antt =====
-- src/chroot.c: `chroot_tnfs` and `warn_if_root`. What is printed is left out.
pub mod Dropped
use tnfsd.Base.{ℕ, List, [], ◌∷◌, ◌==◌, if◌then◌else◌}
use tnfsd.Os.{Os, Call, Result, ok, err}
use tnfsd.Tnfs.{Io, did, asked}

-- A call that ends the process or returns.
pub data Chrooted : Type 0 where
  exits returns : Io → Chrooted

-- `exit (-1)` if a call fails, or what follows it.
unfoldable pub needs {ℓ} : {A : Type ℓ} → Call → Result A → Io → (A → Io → Chrooted) → Chrooted
needs c (err e) io next = exits (record (asked c io) { errno = e })
needs c (ok a) io next = next a (asked c io)

module _ (os : Os) where
  -- The calls that give up the privileges, once the user's number and the group's are known
  unfoldable pub enter_jail : List ℕ → ℕ → ℕ → Io → Chrooted
  enter_jail newroot uid gid io =
      needs (Call.chroot newroot) (os.chroot io.calls newroot) io (λ _ io.
        needs (Call.chdir (b'/' ∷ [])) (os.chdir io.calls (b'/' ∷ [])) io (λ _ io.
          needs (Call.setgroups []) (os.setgroups io.calls []) io (λ _ io.
            needs (Call.setgid gid) (os.setgid io.calls gid) io
              (λ _ io. needs (Call.setuid uid) (os.setuid io.calls uid) io (λ _ io. returns io)))))

  unfoldable pub chroot_tnfs : List ℕ → List ℕ → List ℕ → Io → Chrooted
  chroot_tnfs user group newroot io =
      needs (Call.getpwnam user) (os.getpwnam io.calls user) io (λ uid io.
        needs (Call.getgrnam group) (os.getgrnam io.calls group) io
          (λ gid io. enter_jail newroot uid gid io))

  -- `getuid () == 0 || getgid () == 0`
  unfoldable pub warn_if_root : Io → Io
  warn_if_root io =
      let uid = os.getuid io.calls in
      let io = asked Call.getuid io in if uid == 0 then io else asked Call.getgid io

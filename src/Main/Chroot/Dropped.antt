-- ===== src/Main/Chroot/Dropped.antt =====
-- src/chroot.c: a process that comes back from `chroot_tnfs` has given up its privileges.
use tnfsd.Base.{ap, ℕ, List, [], ◌∷◌, ◌++◌, ◌≡◌, ◌∙◌, sym, refl, arith, ◌↔◌}
use tnfsd.Os.{Os, Call, Result, ok, err}
use tnfsd.Tnfs.{Io, asked}
use tnfsd.Main.Chroot.{Chrooted, exits, returns, needs, enter_jail, chroot_tnfs}

-- The calls by which the process gives up its privileges, the latest first.
abbrev pub jail_calls : List ℕ → ℕ → ℕ → List Call
jail_calls newroot uid gid =
    Call.setuid uid
    ∷ Call.setgid gid
    ∷ Call.setgroups []
    ∷ Call.chdir (b'/' ∷ [])
    ∷ Call.chroot newroot
    ∷ []

-- All of them succeed, one after the other, after the calls `h`.
abbrev pub Jailed : Os → List ℕ → ℕ → ℕ → List Call → Type 0
Jailed os newroot uid gid h =
    let h1 = Call.chroot newroot ∷ h in
    let h2 = Call.chdir (b'/' ∷ []) ∷ h1 in
    let h3 = Call.setgroups [] ∷ h2 in
    let h4 = Call.setgid gid ∷ h3 in
    (os.chroot h newroot ≡ ok tt)
    × (os.chdir h1 (b'/' ∷ []) ≡ ok tt)
    × (os.setgroups h2 [] ≡ ok tt)
    × (os.setgid h3 gid ≡ ok tt)
    × (os.setuid h4 uid ≡ ok tt)

-- The state in which the process ends or goes on.
abbrev pub after : Chrooted → Io
after (exits io) = io
after (returns io) = io

needs-returns {ℓ} :
    {A : Type ℓ} (c : Call) (r : Result A) (io : Io) (next : A → Io → Chrooted) (io' : Io)
    → needs c r io next ≡ returns io'
    → ((a : A) × (r ≡ ok a) × (next a (asked c io) ≡ returns io'))
unfolding needs
needs-returns c (err e) io next io' h = absurd (ground arith)
needs-returns c (ok a) io next io' h = (a, refl, h)

module _ (os : Os) where
  enter_jail-returns :
      (newroot : List ℕ) (uid gid : ℕ) (io io' : Io)
      → enter_jail os newroot uid gid io ≡ returns io'
      → (Jailed os newroot uid gid io.calls)
        × (io' ≡ record io { calls = jail_calls newroot uid gid ++ io.calls })
  unfolding enter_jail
  enter_jail-returns newroot uid gid io io' h =
      let a = needs-returns _ _ _ _ io' h in
      let b = needs-returns _ _ _ _ io' a.2 in
      let c = needs-returns _ _ _ _ io' b.2 in
      let d = needs-returns _ _ _ _ io' c.2 in
      let e = needs-returns _ _ _ _ io' d.2 in ((a.1, b.1, c.1, d.1, e.1), sym (ap after e.2))

  enter_jail-Jailed :
      (newroot : List ℕ) (uid gid : ℕ) (io : Io)
      → Jailed os newroot uid gid io.calls
      → enter_jail os newroot uid gid io
        ≡ returns (record io { calls = jail_calls newroot uid gid ++ io.calls })
  unfolding enter_jail needs
  enter_jail-Jailed newroot uid gid io h = rw (h.0, h.1, h.2, h.3, h.4) refl

  -- `chroot_tnfs` returns only if the user and the group have been found, and then the root and the
  -- working directory have been changed, the supplementary groups been cleared, the group's number
  -- been set and at last the user's, each of them with success and nothing between them; and it does
  -- return then. The calls are the only change. In every other case the process exits.
  pub chroot_tnfs-returns :
      (user group newroot : List ℕ) (io io' : Io)
      → (chroot_tnfs os user group newroot io ≡ returns io') ↔ (
          (uid : ℕ) × (gid : ℕ) × (os.getpwnam io.calls user ≡ ok uid)
          × (os.getgrnam (Call.getpwnam user ∷ io.calls) group ≡ ok gid)
          × Jailed os newroot uid gid (Call.getgrnam group ∷ Call.getpwnam user ∷ io.calls)
          × (io' ≡ record io {
            calls =
                jail_calls newroot uid gid ++ (Call.getgrnam group ∷ Call.getpwnam user ∷ io.calls);
          }))
  unfolding chroot_tnfs needs
  chroot_tnfs-returns user group newroot io io' = (
    λ h.
        (let u = needs-returns _ _ _ _ io' h in
          let g = needs-returns _ _ _ _ io' u.2 in
          let j = enter_jail-returns newroot u.0 g.0 _ io' g.2 in (u.0, g.0, u.1, g.1, j.0, j.1)),
    λ d.
        (let found : Io = record io {
          calls = Call.getgrnam group ∷ Call.getpwnam user ∷ io.calls;
        } in
          rw (d.2, d.3) (enter_jail-Jailed newroot d.0 d.1 found d.4 ∙ ap returns (sym d.5))),
  )

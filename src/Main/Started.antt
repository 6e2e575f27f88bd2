-- ===== src/Main/Started.antt =====
-- src/main.c, src/chroot.c: how the daemon is started, if it is.
use tnfsd.Base.{
  ℕ, Bool, true, false, sym, refl, ◌∙◌, ◌||◌, ◌≤◌, ltb, Option, none, some, Option-cases, List, [],
  ◌∷◌, ◌++◌, ◌≡◌, ap, subst, arith, inl, inr, Bool-cases,
}
use tnfsd.Base.Int.{ℤ, pos, negsuc}
use tnfsd.Os.{Os, Call, ok}
use tnfsd.Tnfs.{Io}
use tnfsd.Main.{
  Ended, Parsed, Given, nothing_given, take_options, root_path, valid_port, failed, ran, port_of,
  jail, jailed, start_with, ended, start_daemon, with_options, main,
}
use tnfsd.Main.Chroot.{Chrooted, exits, returns, chroot_tnfs, warn_if_root}
use tnfsd.Main.Chroot.Dropped.{jail_calls, Jailed, chroot_tnfs-returns}
use tnfsd.Main.Last.{last_of, said, take_options-said}
use tnfsd.Server.Startup.{tnfsd_start}

root_path-some :
    (operands : List (List ℕ)) (r : List ℕ) → root_path operands ≡ some r → operands ≡ r ∷ []
unfolding root_path
root_path-some [] r h = absurd cc
root_path-some (q ∷ []) r h = cc
root_path-some (q ∷ s ∷ rest) r h = absurd cc

valid_port-bounds :
    (z : ℤ) (port : ℕ) → valid_port z ≡ some port → (1 ≤ port) × (port ≤ 65535) × (z ≡ pos port)
unfolding valid_port
valid_port-bounds (negsuc n) port h = absurd cc
valid_port-bounds (pos n) port h = elim (Bool-cases (ltb n 1 || ltb 65535 n)) [
  | inl bad ↦ let no : none ≡ some port = rw bad at h in absurd cc
  | inr good ↦
      let yes : some n ≡ some port = rw good at h in
      let same : n ≡ port = cc in (ground arith, ground arith, ap pos same)
]

jailed-some :
    (c : Chrooted) (r : List ℕ) (io' : Io)
    → jailed c ≡ (some r, io')
    → (r ≡ b'/' ∷ []) × (c ≡ returns io')
jailed-some (exits io) r io' h = let none_there : none ≡ some r = ap (λ p. p.0) h in absurd cc
jailed-some (returns io) r io' h =
    let root : some (b'/' ∷ []) ≡ some r = ap (λ p. p.0) h in (cc, ap (λ p. returns p.1) h)

-- The process has called `tnfsd_start`: it is still running, or has ended from within it.
abbrev pub is_started : Option Ended → Bool
is_started none = true
is_started (some (failed io)) = false
is_started (some (ran e)) = true

module _ (os : Os) (atoi : List ℕ → ℤ) where
  start_daemon-started :
      (n : ℕ) (bootsector : List ℕ) (g : Given) (root : List ℕ) (io : Io)
      → is_started (start_daemon os atoi n bootsector g root io) ≡ true
      → ((port : ℕ) × (port_of atoi g.pvalue ≡ some port)
          × (start_daemon os atoi n bootsector g root io
              ≡ ended (tnfsd_start os n bootsector (start_with g root port) (warn_if_root os io))))
  unfolding start_daemon
  start_daemon-started n bootsector g root io h = elim (Option-cases (port_of atoi g.pvalue)) [
    | inl bad ↦ let no : false ≡ true = rw (bad, start_daemon) at h in absurd cc
    | inr (port, good) ↦ (port, good, rw (good, start_daemon) refl)
  ]

  jail-chroot :
      (g : Given) (user root r : List ℕ) (io io' : Io)
      → g.uvalue ≡ some user
      → jail os g root io ≡ (some r, io')
      → ((group : List ℕ) × (g.gvalue ≡ some group)
          × (r ≡ b'/' ∷ [])
          × (chroot_tnfs os user group root io ≡ returns io'))
  unfolding jail
  jail-chroot g user root r io io' u h = elim (Option-cases g.gvalue) [
    | inl missing ↦
        let none_there : none ≡ some r = ap (λ p. p.0) (rw (u, missing, jail) at h) in absurd cc
    | inr (group, e) ↦
        let c = chroot_tnfs os user group root io in
        let q = jailed-some c r io' (rw (u, e, jail) at h) in (group, e, q.0, q.1)
  ]

  with_options-started :
      (n : ℕ) (bootsector : List ℕ) (g : Given) (operands : List (List ℕ)) (io : Io)
      → is_started (with_options os atoi n bootsector g operands io) ≡ true
      → ((root : List ℕ) × (r : List ℕ) × (io' : Io) × (operands ≡ root ∷ [])
          × (jail os g root io ≡ (some r, io'))
          × (with_options os atoi n bootsector g operands io
              ≡ start_daemon os atoi n bootsector g r io'))
  unfolding with_options
  with_options-started n bootsector g operands io h = elim (Option-cases (root_path operands)) [
    | inl bad ↦ let no : false ≡ true = rw (bad, with_options) at h in absurd cc
    | inr (root, good) ↦
        let there = root_path-some operands root good in
        let j = jail os g root io in
        elim (Option-cases j.0) [
          | inl left ↦ let no : false ≡ true = rw (good, left, with_options) at h in absurd cc
          | inr (r, e) ↦
              (root, r, j.1, there, ap (λ o. (o, j.1)) e, rw (good, e, with_options) refl)
        ]
  ]

  main-started :
      (getopt : List (List ℕ) → Parsed) (n : ℕ) (bootsector : List ℕ) (argv : List (List ℕ))
      (io : Io)
      → is_started (main os atoi getopt n bootsector argv io) ≡ true
      → main os atoi getopt n bootsector argv io
        ≡ with_options os atoi n bootsector (said (getopt argv).opts) (getopt argv).operands io
  unfolding main
  main-started getopt n bootsector argv io h =
      elim (Option-cases (take_options (getopt argv).opts nothing_given)) [
        | inl bad ↦ let no : false ≡ true = rw (bad, main) at h in absurd cc
        | inr (g, good) ↦
            rw (good, main)
              (ap (λ g. with_options os atoi n bootsector g (getopt argv).operands io)
                (take_options-said (getopt argv).opts g good))
      ]

  port_of-bounds :
      (v : Option (List ℕ)) (port : ℕ) → port_of atoi v ≡ some port → (1 ≤ port) × (port ≤ 65535)
  unfolding port_of
  port_of-bounds none port h = let e : 16384 ≡ port = cc in (omega (arith, e), omega (arith, e))
  port_of-bounds (some v) port h = let q = valid_port-bounds (atoi v) port h in (q.0, q.1)

  -- A process, ended or not, runs the daemon in a jail: how it has got there from the arguments.
  abbrev pub RunsJailed : Parsed → ℕ → List ℕ → Io → List ℕ → Option Ended → Type 0
  RunsJailed p n bootsector io user process =
      (group : List ℕ) × (root : List ℕ) × (uid : ℕ) × (gid : ℕ) × (port : ℕ) × (last_of b'g' p.opts
        ≡ some group)
      × (p.operands ≡ root ∷ [])
      × (os.getpwnam io.calls user ≡ ok uid)
      × (os.getgrnam (Call.getpwnam user ∷ io.calls) group ≡ ok gid)
      × Jailed os root uid gid (Call.getgrnam group ∷ Call.getpwnam user ∷ io.calls)
      × (1 ≤ port)
      × (port ≤ 65535)
      × (process
          ≡ ended (
              tnfsd_start os n bootsector (start_with (said p.opts) (b'/' ∷ []) port) (
                warn_if_root os (record io {
                  calls =
                      jail_calls root uid gid
                      ++ (Call.getgrnam group ∷ Call.getpwnam user ∷ io.calls);
                }))))

  -- If the process has not ended before `tnfsd_start` (the daemon is still running after the passes
  -- that it is given, or has ended from within it) and a user has been named with `-u`: a group has
  -- been named too, the root directory is the one operand, and before `tnfsd_start` the user and the
  -- group have been found and all privileges given up, as `chroot_tnfs` does it: the root and the
  -- working directory changed, the groups cleared, the group's number set and then the user's, with
  -- success each. All else that the process does is to look whether it is root still, as
  -- `warn_if_root` does, and then `tnfsd_start` at the root `/`, read-only if `-r` occurs, and on a
  -- port from 1 to 65535.
  pub main-Jailed :
      (getopt : List (List ℕ) → Parsed) (n : ℕ) (bootsector : List ℕ) (argv : List (List ℕ))
      (io : Io) (user : List ℕ)
      → is_started (main os atoi getopt n bootsector argv io) ≡ true
      → last_of b'u' (getopt argv).opts ≡ some user
      → RunsJailed (getopt argv) n bootsector io user (main os atoi getopt n bootsector argv io)
  main-Jailed getopt n bootsector argv io user h u =
      let p = getopt argv in
      let g = said p.opts in
      let m = main-started getopt n bootsector argv io h in
      let w = with_options-started n bootsector g p.operands io (ap is_started (sym m) ∙ h) in
      let root = w.0 in
      let j = jail-chroot g user root w.1 io w.2 u w.4 in
      let d = start_daemon-started n bootsector g w.1 w.2 (ap is_started (sym (m ∙ w.5)) ∙ h) in
      let q = (chroot_tnfs-returns os user j.0 root io w.2).0 j.3 in
      let process = main os atoi getopt n bootsector argv io in
      let runs : List ℕ → Io → Type 0 = λ r io.
        (process ≡ ended (tnfsd_start os n bootsector (start_with g r d.0) (warn_if_root os io))) in
      let bounds = port_of-bounds g.pvalue d.0 d.1 in
      (
        j.0,
        root,
        q.0,
        q.1,
        d.0,
        j.1,
        w.3,
        q.2,
        q.3,
        q.4,
        bounds.0,
        bounds.1,
        subst (runs (b'/' ∷ [])) q.5 (subst (λ r. runs r w.2) j.2 (m ∙ w.5 ∙ d.2)),
      )

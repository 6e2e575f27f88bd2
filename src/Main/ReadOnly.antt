-- ===== src/Main/ReadOnly.antt =====
-- src/main.c, src/chroot.c: a process given `-r` changes no file from its start to its end.
use tnfsd.Base.{
  ℕ, true, false, ◌==◌, Option, none, some, Option-cases, List, ◌≡◌, refl, ◌∙◌, ap, subst, inl, inr,
  Bool-cases,
}
use tnfsd.Base.Int.{ℤ}
use tnfsd.Os.{Os, Call, Result, ok, err, is_mutating, ReadsOnly, ReadBound}
use tnfsd.Tnfs.{Io, asked}
use tnfsd.Main.{
  Parsed, Given, nothing_given, take_options, root_path, Ended, failed, ran, port_of, jail, jailed,
  start_with, start_daemon, with_options, main,
}
use tnfsd.Main.Chroot.{Chrooted, exits, returns, needs, enter_jail, chroot_tnfs, warn_if_root}
use tnfsd.Main.Chroot.Dropped.{after}
use tnfsd.Main.Last.{occurs, take_options-said}
use tnfsd.Server.Loop.Quiet.{ReceivesBytes}
use tnfsd.Server.Startup.{tnfsd_start}
use tnfsd.Server.Startup.ReadOnly.{exit_calls, tnfsd_start-ReadsOnly}

-- The calls made until the process has ended.
abbrev pub ended_calls : Ended → List Call
ended_calls (failed io) = io.calls
ended_calls (ran e) = exit_calls e

-- If the process ends, it has changed no file.
abbrev pub Clean : Option Ended → Type 0
Clean none = Unit {0}
Clean (some e) = ReadsOnly (ended_calls e)

-- The call ends or returns with no file changed.
unfoldable Quiet : Chrooted → Type 0
Quiet c = ReadsOnly (after c).calls

needs-Quiet {ℓ} :
    {A : Type ℓ} (c : Call) (r : Result A) (io : Io) (next : A → Io → Chrooted)
    → is_mutating c ≡ false
    → ReadsOnly io.calls
    → ((a : A) (io' : Io) → ReadsOnly io'.calls → Quiet (next a io'))
    → Quiet (needs c r io next)
unfolding needs Quiet
needs-Quiet c (err e) io next m q h = (m, q)
needs-Quiet c (ok a) io next m q h = h a (asked c io) (m, q)

returns-Quiet : (io : Io) → ReadsOnly io.calls → Quiet (returns io)
unfolding Quiet
returns-Quiet io q = q

jailed-after : (c : Chrooted) → (jailed c).1 ≡ after c
jailed-after (exits io) = refl
jailed-after (returns io) = refl

module _ (os : Os) where
  chroot_tnfs-Quiet :
      (user group newroot : List ℕ) (io : Io)
      → ReadsOnly io.calls
      → Quiet (chroot_tnfs os user group newroot io)
  unfolding chroot_tnfs enter_jail is_mutating
  chroot_tnfs-Quiet user group newroot io q = needs-Quiet _ _ _ _ refl q (λ uid io q.
      needs-Quiet _ _ _ _ refl q (λ gid io q. needs-Quiet _ _ _ _ refl q (λ _ io q.
        needs-Quiet _ _ _ _ refl q (λ _ io q. needs-Quiet _ _ _ _ refl q (λ _ io q.
          needs-Quiet _ _ _ _ refl q
            (λ _ io q. needs-Quiet _ _ _ _ refl q (λ _ io q. returns-Quiet io q)))))))

  warn-ReadsOnly : (io : Io) → ReadsOnly io.calls → ReadsOnly (warn_if_root os io).calls
  unfolding warn_if_root is_mutating
  warn-ReadsOnly io q = elim (Bool-cases (os.getuid io.calls == 0)) [
    | inl root ↦ rw (root, warn_if_root) (refl, q)
    | inr other ↦ rw (other, warn_if_root) (refl, (refl, q))
  ]

  jail-ReadsOnly :
      (g : Given) (root : List ℕ) (io : Io)
      → ReadsOnly io.calls
      → ReadsOnly (jail os g root io).1.calls
  unfolding jail Quiet
  jail-ReadsOnly g root io q = elim (Option-cases g.uvalue) [
    | inl none_u ↦ elim (Option-cases g.gvalue) [
      | inl none_g ↦ rw (none_u, none_g, jail) q
      | inr (group, e) ↦ rw (none_u, e, jail) q
    ]
    | inr (user, u) ↦ elim (Option-cases g.gvalue) [
      | inl none_g ↦ rw (u, none_g, jail) q
      | inr (group, e) ↦
          rw (u, e, jail, jailed-after (chroot_tnfs os user group root io))
            (chroot_tnfs-Quiet user group root io q)
    ]
  ]

module _ (os : Os) (atoi : List ℕ → ℤ) (bound : ReadBound os) (bytes : ReceivesBytes os) where
  start_daemon-Clean :
      (n : ℕ) (bootsector : List ℕ) (g : Given) (root : List ℕ) (io : Io)
      → g.read_only ≡ true
      → ReadsOnly io.calls
      → Clean (start_daemon os atoi n bootsector g root io)
  unfolding start_daemon
  start_daemon-Clean n bootsector g root io r q = elim (Option-cases (port_of atoi g.pvalue)) [
    | inl bad ↦ rw (bad, start_daemon) (warn-ReadsOnly os io q)
    | inr (port, e) ↦
        let opts = start_with g root port in
        elim (Option-cases (tnfsd_start os n bootsector opts (warn_if_root os io))) [
          | inl on ↦ rw (e, on, start_daemon) tt
          | inr (end, d) ↦
              rw (e, d, start_daemon)
                (tnfsd_start-ReadsOnly os bound bytes n bootsector opts (warn_if_root os io) end r
                  (warn-ReadsOnly os io q) d)
        ]
  ]

  with_options-Clean :
      (n : ℕ) (bootsector : List ℕ) (g : Given) (operands : List (List ℕ)) (io : Io)
      → g.read_only ≡ true
      → ReadsOnly io.calls
      → Clean (with_options os atoi n bootsector g operands io)
  unfolding with_options
  with_options-Clean n bootsector g operands io r q = elim (Option-cases (root_path operands)) [
    | inl bad ↦ rw (bad, with_options) q
    | inr (root, e) ↦
        let j = jail os g root io in
        let q' = jail-ReadsOnly os g root io q in
        elim (Option-cases j.0) [
          | inl left ↦ rw (e, left, with_options) q'
          | inr (in_jail, d) ↦
              rw (e, d, with_options) (start_daemon-Clean n bootsector g in_jail j.1 r q')
        ]
  ]

  main-Clean :
      (getopt : List (List ℕ) → Parsed) (n : ℕ) (bootsector : List ℕ) (argv : List (List ℕ))
      (io : Io)
      → occurs b'r' (getopt argv).opts ≡ true
      → ReadsOnly io.calls
      → Clean (main os atoi getopt n bootsector argv io)
  unfolding main
  main-Clean getopt n bootsector argv io r q =
      elim (Option-cases (take_options (getopt argv).opts nothing_given)) [
        | inl bad ↦ rw (bad, main) q
        | inr (g, e) ↦
            let flag = ap (λ g. g.read_only) (take_options-said (getopt argv).opts g e) in
            rw (e, main) (with_options-Clean n bootsector g (getopt argv).operands io (flag ∙ r) q)
      ]

  -- If `read` gives no more bytes than it is asked for and what is received is bytes: a process
  -- among whose options `-r` occurs, in whatever place, has created, written, truncated, renamed
  -- or removed no file or directory when it ends, if it had not before; be it that an option, the
  -- operands or the port is refused, that it cannot give up its privileges, or that the daemon
  -- ends after any number of passes.
  pub main-ReadsOnly :
      (getopt : List (List ℕ) → Parsed) (n : ℕ) (bootsector : List ℕ) (argv : List (List ℕ))
      (io : Io) (e : Ended)
      → occurs b'r' (getopt argv).opts ≡ true
      → ReadsOnly io.calls
      → main os atoi getopt n bootsector argv io ≡ some e
      → ReadsOnly (ended_calls e)
  main-ReadsOnly getopt n bootsector argv io e r q ends =
      subst Clean ends (main-Clean getopt n bootsector argv io r q)

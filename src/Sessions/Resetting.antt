-- ===== src/Sessions/Resetting.antt =====
-- src/session.c, `tnfs_reset_cli_fd_in_sessions`: a connection that goes away leaves no session that
-- names it; nothing else of the table changes.
use tnfsd.Base.{
  ℕ, true, false, none, some, List, [], ◌∷◌, ◌≤◌, ◌==◌, ◌≡◌, refl, arith, if◌then◌else◌, inl, inr,
  Bool-cases, map,
}
use tnfsd.Tnfs.{Session}
use tnfsd.Sessions.{Slots, tnfs_reset_cli_fd_in_sessions}
use tnfsd.Sessions.Table.{has_sid, Free, keep, count_ip}
use tnfsd.Sessions.Ids.{Distinct}
use tnfsd.Sessions.Sound.{linked, linked-zero, IsSound, Sound}

Free-reset :
    (sid fd : ℕ) (slots : Slots)
    → Free sid slots
    → Free sid (tnfs_reset_cli_fd_in_sessions fd slots)
unfolding tnfs_reset_cli_fd_in_sessions has_sid
Free-reset sid fd [] free = tt
Free-reset sid fd (none ∷ rest) free = (refl, Free-reset sid fd rest free.1)
Free-reset sid fd (some s ∷ rest) free = (ground arith, Free-reset sid fd rest free.1)

pub Distinct-reset :
    (fd : ℕ) (slots : Slots) → Distinct slots → Distinct (tnfs_reset_cli_fd_in_sessions fd slots)
unfolding tnfs_reset_cli_fd_in_sessions Distinct
Distinct-reset fd [] d = tt
Distinct-reset fd (none ∷ rest) d = (tt, Distinct-reset fd rest d.1)
Distinct-reset fd (some s ∷ rest) d = elim (Bool-cases (s.cli_fd == fd)) [
  | inl named ↦ rw (named, if◌then◌else◌) (Free-reset s.sid fd rest d.0, Distinct-reset fd rest d.1)
  | inr other ↦ rw (other, if◌then◌else◌) (Free-reset s.sid fd rest d.0, Distinct-reset fd rest d.1)
]

pub count_ip-reset :
    (ip fd : ℕ) (slots : Slots)
    → count_ip ip (tnfs_reset_cli_fd_in_sessions fd slots) ≡ count_ip ip slots
unfolding tnfs_reset_cli_fd_in_sessions count_ip
count_ip-reset ip fd [] = refl
count_ip-reset ip fd (none ∷ rest) = count_ip-reset ip fd rest
count_ip-reset ip fd (some s ∷ rest) = ground (arith, count_ip-reset ip fd rest)

pub count_ip-keep :
    (ip now : ℕ) (slots : Slots) → count_ip ip (map (keep now) slots) ≤ count_ip ip slots
unfolding keep count_ip
count_ip-keep ip now [] = omega arith
count_ip-keep ip now (none ∷ rest) = count_ip-keep ip now rest
count_ip-keep ip now (some s ∷ rest) = ground (arith, count_ip-keep ip now rest)

-- The connections change, and every one that a session names is still there.
pub Sound-grows :
    (c d : List ℕ) (slots : Slots)
    → ((f : ℕ) → linked c f ≡ true → linked d f ≡ true)
    → Sound c slots
    → Sound d slots
Sound-grows c d [] grows all = tt
Sound-grows c d (none ∷ rest) grows all = (tt, Sound-grows c d rest grows all.1)
Sound-grows c d (some s ∷ rest) grows (s_ok, all) =
    ((s_ok.0, s_ok.1, s_ok.2, s_ok.3, grows s.cli_fd s_ok.4), Sound-grows c d rest grows all)

reset_one :
    (fd : ℕ) (c d : List ℕ) (s : Session)
    → ((f : ℕ) → (f == fd) ≡ false → linked c f ≡ true → linked d f ≡ true)
    → IsSound c s
    → IsSound d (if s.cli_fd == fd then record s { cli_fd = 0 } else s)
reset_one fd c d s stays ok = elim (Bool-cases (s.cli_fd == fd)) [
  | inl named ↦ rw named (ok.0, ok.1, ok.2, ok.3, linked-zero d)
  | inr other ↦ rw other (ok.0, ok.1, ok.2, ok.3, stays s.cli_fd other ok.4)
]

-- The connection `fd` goes away, and the others stay.
pub Sound-reset :
    (fd : ℕ) (c d : List ℕ) (slots : Slots)
    → ((f : ℕ) → (f == fd) ≡ false → linked c f ≡ true → linked d f ≡ true)
    → Sound c slots
    → Sound d (tnfs_reset_cli_fd_in_sessions fd slots)
unfolding tnfs_reset_cli_fd_in_sessions
Sound-reset fd c d [] stays all = tt
Sound-reset fd c d (none ∷ rest) stays all = (tt, Sound-reset fd c d rest stays all.1)
Sound-reset fd c d (some s ∷ rest) stays all =
    (reset_one fd c d s stays all.0, Sound-reset fd c d rest stays all.1)

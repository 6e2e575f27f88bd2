-- ===== src/Sessions/Ids.antt =====
-- src/session.c: no two sessions have the same ID, through MOUNT, UMOUNT and the expiry of sessions.
pub mod Mounting
use tnfsd.Base.{
  ℕ, zero, suc, true, false, not, Option, none, some, Option-cases, List, [], ◌∷◌, ◌+◌, ◌==◌, ◌≡◌,
  ◌∙◌, ◌&&◌, leb, refl, ap, sym, subst, arith, ltb, if◌then◌else◌, inl, inr, Bool-cases, get_elem?,
  set, map, length, ==_refl,
}
use tnfsd.Os.{Os}
use tnfsd.Tnfs.{Session, Io}
use tnfsd.Sessions.{Slots, find_sid, tnfs_findsession_sid, expire_slots, tnfs_session_expired}
use tnfsd.Sessions.Table.{has_sid, Free, keep, expire_slots-map}

abbrev SidsDiffer : Option Session → Slots → Type 0
SidsDiffer none rest = Unit {0}
SidsDiffer (some s) rest = Free s.sid rest

-- No two slots have the same ID.
unfoldable pub Distinct : Slots → Type 0
Distinct [] = Unit {0}
Distinct (o ∷ rest) = SidsDiffer o rest × Distinct rest

pub Free-set :
    (sid i : ℕ) (o : Option Session) (slots : Slots)
    → Free sid slots
    → has_sid sid o ≡ false
    → Free sid (set slots i o)
Free-set sid i o [] free h = tt
Free-set sid zero o (p ∷ rest) free h = (h, free.1)
Free-set sid (suc i) o (p ∷ rest) free h = (free.0, Free-set sid i o rest free.1 h)

-- A session is freed, or one joins whose ID is free.
pub Distinct-set-none : (i : ℕ) (slots : Slots) → Distinct slots → Distinct (set slots i none)
unfolding Distinct has_sid
Distinct-set-none i [] d = tt
Distinct-set-none zero (o ∷ rest) d = (tt, d.1)
Distinct-set-none (suc i) (none ∷ rest) d = (tt, Distinct-set-none i rest d.1)
Distinct-set-none (suc i) (some s ∷ rest) d =
    (Free-set s.sid i none rest d.0 refl, Distinct-set-none i rest d.1)

pub Distinct-set-some :
    (i : ℕ) (s : Session) (slots : Slots)
    → Distinct slots
    → Free s.sid (set slots i none)
    → Distinct (set slots i (some s))
unfolding Distinct has_sid
Distinct-set-some i s [] d free = tt
Distinct-set-some zero s (o ∷ rest) d free = (free.1, d.1)
Distinct-set-some (suc i) s (none ∷ rest) d free = (tt, Distinct-set-some i s rest d.1 free.1)
Distinct-set-some (suc i) s (some t ∷ rest) d free =
    (Free-set t.sid i (some s) rest d.0 (ground arith), Distinct-set-some i s rest d.1 free.1)

abbrev session_or : Session → Option (Option Session) → Session
session_or t (some (some s)) = s
session_or t (some none) = t
session_or t none = t

Free-get_elem? :
    (sid i : ℕ) (s : Session) (slots : Slots)
    → Free sid slots
    → get_elem? slots i ≡ some (some s)
    → (s.sid == sid) ≡ false
unfolding has_sid
Free-get_elem? sid i s [] free e = absurd (ground arith)
Free-get_elem? sid zero s (o ∷ rest) free e = grind arith
Free-get_elem? sid (suc i) s (o ∷ rest) free e = Free-get_elem? sid i s rest free.1 e

-- The ID of a session is free once it is gone.
pub Free-of_Distinct :
    (i : ℕ) (s : Session) (slots : Slots)
    → Distinct slots
    → get_elem? slots i ≡ some (some s)
    → Free s.sid (set slots i none)
unfolding Distinct has_sid
Free-of_Distinct i s [] d e = tt
Free-of_Distinct zero s (none ∷ rest) d e = absurd (ground arith)
Free-of_Distinct zero s (some t ∷ rest) d e =
    (refl, subst (λ u. Free u.sid rest) (ap (session_or t) e) d.0)
Free-of_Distinct (suc i) s (none ∷ rest) d e = (refl, Free-of_Distinct i s rest d.1 e)
Free-of_Distinct (suc i) s (some t ∷ rest) d e = (
  (let differ = Free-get_elem? t.sid i s rest d.0 e in ground arith),
  Free-of_Distinct i s rest d.1 e,
)

get_elem?-set-some :
    (i : ℕ) (o p : Option Session) (slots : Slots)
    → get_elem? slots i ≡ some o
    → get_elem? (set slots i p) i ≡ some p
get_elem?-set-some i o p [] e = absurd (ground arith)
get_elem?-set-some zero o p (q ∷ rest) e = refl
get_elem?-set-some (suc i) o p (q ∷ rest) e = get_elem?-set-some i o p rest e

Free-keep : (sid now : ℕ) (slots : Slots) → Free sid slots → Free sid (map (keep now) slots)
unfolding keep has_sid
Free-keep sid now [] free = tt
Free-keep sid now (none ∷ rest) free = (refl, Free-keep sid now rest free.1)
Free-keep sid now (some s ∷ rest) free = (ground arith, Free-keep sid now rest free.1)

Distinct-keep : (now : ℕ) (slots : Slots) → Distinct slots → Distinct (map (keep now) slots)
unfolding keep Distinct
Distinct-keep now [] d = tt
Distinct-keep now (none ∷ rest) d = (tt, Distinct-keep now rest d.1)
Distinct-keep now (some s ∷ rest) d =
    elim (Bool-cases (leb (s.last_contact + 600) now && s.cli_fd == 0)) [
      | inl gone ↦ rw (gone, if◌then◌else◌) (tt, Distinct-keep now rest d.1)
      | inr stays ↦
          rw (stays, if◌then◌else◌) (Free-keep s.sid now rest d.0, Distinct-keep now rest d.1)
    ]

-- The expiry of sessions keeps the IDs distinct.
pub expire_slots-Distinct :
    (os : Os) (now : ℕ) (slots : Slots) (io : Io)
    → Distinct slots
    → Distinct (expire_slots os now slots io).0
expire_slots-Distinct os now slots io d =
    rw (expire_slots-map os now slots io) (Distinct-keep now slots d)

find_sid-get_elem? :
    (i k : ℕ) (s : Session) (slots : Slots)
    → Distinct slots
    → get_elem? slots i ≡ some (some s)
    → find_sid s.sid slots k ≡ some (i + k, s)
unfolding Distinct has_sid find_sid
find_sid-get_elem? i k s [] d e = absurd (ground arith)
find_sid-get_elem? zero k s (none ∷ rest) d e = absurd (ground arith)
find_sid-get_elem? zero k s (some t ∷ rest) d e =
    rw (ap (session_or t) e) (rw (==_refl s.sid) (ap (λ n. some (n, s)) (omega arith)))
find_sid-get_elem? (suc i) k s (none ∷ rest) d e =
    find_sid-get_elem? i (suc k) s rest d.1 e ∙ ap (λ n. some (n, s)) (omega arith)
find_sid-get_elem? (suc i) k s (some t ∷ rest) d e =
    let differ = Free-get_elem? t.sid i s rest d.0 e in
    grind (arith, find_sid-get_elem? i (suc k) s rest d.1 e)

-- A session in the table, whose IDs are distinct, is the one that its ID finds, with its slot.
pub tnfs_findsession_sid-get_elem? :
    (i : ℕ) (s : Session) (slots : Slots)
    → Distinct slots
    → get_elem? slots i ≡ some (some s)
    → tnfs_findsession_sid s.sid slots ≡ some (i, s)
unfolding tnfs_findsession_sid
tnfs_findsession_sid-get_elem? i s slots d e =
    find_sid-get_elem? i 0 s slots d e ∙ ap (λ n. some (n, s)) (omega arith)

-- ===== src/Sessions/Change.antt =====
-- src/session.c: single slots of the table, and what a change of one does to a search and to a count.
use tnfsd.Base.{
  ℕ, zero, suc, true, false, Option, none, some, [], ◌∷◌, ◌-◌, ◌≤◌, ◌==◌, ◌≡◌, ◌∙◌, refl, ap, subst,
  sym, arith, inl, inr, Bool-cases, get_elem?, set, All, ==_iff,
}
use tnfsd.Tnfs.{Session}
use tnfsd.Sessions.{Slots, find_sid, tnfs_findsession_sid}
use tnfsd.Sessions.Table.{count_ip}

pub set-set :
    (i : ℕ) (o p : Option Session) (slots : Slots) → set (set slots i o) i p ≡ set slots i p
set-set i o p [] = refl
set-set zero o p (q ∷ rest) = refl
set-set (suc i) o p (q ∷ rest) = ap (λ l. q ∷ l) (set-set i o p rest)

pub get_elem?-set_slot :
    (i : ℕ) (o p : Option Session) (slots : Slots)
    → get_elem? slots i ≡ some o
    → get_elem? (set slots i p) i ≡ some p
get_elem?-set_slot i o p [] e = absurd (ground arith)
get_elem?-set_slot zero o p (q ∷ rest) e = refl
get_elem?-set_slot (suc i) o p (q ∷ rest) e = get_elem?-set_slot i o p rest e

pub All-set :
    (P : Option Session → Type 0) (i : ℕ) (o : Option Session) (slots : Slots)
    → All P slots
    → P o
    → All P (set slots i o)
All-set P i o [] all h = tt
All-set P zero o (q ∷ rest) all h = (h, all.1)
All-set P (suc i) o (q ∷ rest) all h = (all.0, All-set P i o rest all.1 h)

abbrev slot_or : Option Session → Option (Option Session) → Option Session
slot_or o none = o
slot_or o (some p) = p

pub All-get_slot :
    (P : Option Session → Type 0) (i : ℕ) (o : Option Session) (slots : Slots)
    → All P slots
    → get_elem? slots i ≡ some o
    → P o
All-get_slot P i o [] all e = absurd (ground arith)
All-get_slot P zero o (q ∷ rest) all e = subst P (ap (slot_or q) e) all.0
All-get_slot P (suc i) o (q ∷ rest) all e = All-get_slot P i o rest all.1 e

pub count_ip-set-none :
    (ip i : ℕ) (slots : Slots) → count_ip ip (set slots i none) ≤ count_ip ip slots
unfolding count_ip
count_ip-set-none ip i [] = omega arith
count_ip-set-none ip zero (none ∷ rest) = omega arith
count_ip-set-none ip zero (some s ∷ rest) = ground arith
count_ip-set-none ip (suc i) (none ∷ rest) = count_ip-set-none ip i rest
count_ip-set-none ip (suc i) (some s ∷ rest) = ground (arith, count_ip-set-none ip i rest)

-- A session of the client leaves: there is one less.
pub count_ip-freed :
    (ip i : ℕ) (s : Session) (slots : Slots)
    → get_elem? slots i ≡ some (some s)
    → (s.ipaddr == ip) ≡ true
    → suc (count_ip ip (set slots i none)) ≡ count_ip ip slots
unfolding count_ip
count_ip-freed ip i s [] e h = absurd (ground arith)
count_ip-freed ip zero s (q ∷ rest) e h = rw (ap (slot_or q) e) (rw h refl)
count_ip-freed ip (suc i) s (none ∷ rest) e h = count_ip-freed ip i s rest e h
count_ip-freed ip (suc i) s (some t ∷ rest) e h = ground (arith, count_ip-freed ip i s rest e h)

-- A session of another client does not count.
pub count_ip-set_other :
    (ip i : ℕ) (s : Session) (slots : Slots)
    → (s.ipaddr == ip) ≡ false
    → count_ip ip (set slots i (some s)) ≡ count_ip ip (set slots i none)
unfolding count_ip
count_ip-set_other ip i s [] h = refl
count_ip-set_other ip zero s (q ∷ rest) h = rw h refl
count_ip-set_other ip (suc i) s (none ∷ rest) h = count_ip-set_other ip i s rest h
count_ip-set_other ip (suc i) s (some t ∷ rest) h = ground (arith, count_ip-set_other ip i s rest h)

pub count_ip-set-some :
    (ip i : ℕ) (s : Session) (slots : Slots)
    → count_ip ip (set slots i (some s)) ≤ suc (count_ip ip (set slots i none))
unfolding count_ip
count_ip-set-some ip i s [] = omega arith
count_ip-set-some ip zero s (q ∷ rest) = ground arith
count_ip-set-some ip (suc i) s (none ∷ rest) = count_ip-set-some ip i s rest
count_ip-set-some ip (suc i) s (some t ∷ rest) = ground (arith, count_ip-set-some ip i s rest)

-- A session is replaced by one of the same client.
pub count_ip-replaced :
    (ip i : ℕ) (s t : Session) (slots : Slots)
    → get_elem? slots i ≡ some (some s)
    → t.ipaddr ≡ s.ipaddr
    → count_ip ip (set slots i (some t)) ≡ count_ip ip slots
unfolding count_ip
count_ip-replaced ip i s t [] e h = absurd (ground arith)
count_ip-replaced ip zero s t (q ∷ rest) e h = rw (ap (slot_or q) e) (rw h refl)
count_ip-replaced ip (suc i) s t (none ∷ rest) e h = count_ip-replaced ip i s t rest e h
count_ip-replaced ip (suc i) s t (some u ∷ rest) e h =
    ground (arith, count_ip-replaced ip i s t rest e h)

abbrev pair_or : ℕ × Session → Option (ℕ × Session) → ℕ × Session
pair_or p none = p
pair_or p (some q) = q

-- The slot `i` from the slot `k` on, of a table with one slot more in front.
one_on :
    (k i : ℕ) (o : Option Session) (s : Session) (rest : Slots)
    → suc k ≤ i
    → get_elem? rest (i - suc k) ≡ some (some s)
    → get_elem? (o ∷ rest) (i - k) ≡ some (some s)
one_on k i o s rest h e = let step : i - k ≡ suc (i - suc k) = omega arith in rw step e

pub find_sid_sound :
    (sid k i : ℕ) (s : Session) (slots : Slots)
    → find_sid sid slots k ≡ some (i, s)
    → (k ≤ i) × (get_elem? slots (i - k) ≡ some (some s)) × (s.sid ≡ sid)
unfolding find_sid
find_sid_sound sid k i s [] e = absurd (ground arith)
find_sid_sound sid k i s (none ∷ rest) e =
    let q = find_sid_sound sid (suc k) i s rest e in
    (omega (arith, q.0), one_on k i none s rest q.0 q.1, q.2)
find_sid_sound sid k i s (some t ∷ rest) e = elim (Bool-cases (t.sid == sid)) [
  | inl same ↦
      let found : (k, t) ≡ (i, s) = ap (pair_or (k, t)) (rw same at e) in
      let here : k ≡ i = ap (λ p. p.0) found in
      let it : t ≡ s = ap (λ p. p.1) found in
      let none_left : i - k ≡ 0 = omega arith in
      (
        omega arith,
        rw none_left (ap (λ u. some (some u)) it),
        ap (λ u. u.sid) (sym it) ∙ (==_iff t.sid sid).0 same,
      )
  | inr differ ↦
      let q = find_sid_sound sid (suc k) i s rest (rw differ at e) in
      (omega (arith, q.0), one_on k i (some t) s rest q.0 q.1, q.2)
]

-- What a search for an ID finds is a session in the table, in the slot it says, and has the ID.
pub tnfs_findsession_sid_lem :
    (sid i : ℕ) (s : Session) (slots : Slots)
    → tnfs_findsession_sid sid slots ≡ some (i, s)
    → (get_elem? slots i ≡ some (some s)) × (s.sid ≡ sid)
unfolding tnfs_findsession_sid
tnfs_findsession_sid_lem sid i s slots e =
    let q = find_sid_sound sid 0 i s slots e in
    let same : i - 0 ≡ i = omega arith in (rw same at q.1, q.2)

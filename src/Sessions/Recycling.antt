-- ===== src/Sessions/Recycling.antt =====
-- src/session.c, `tnfs_findsession_ipaddr`: the session that makes room for a new one is the client's.
use tnfsd.Base.{
  ℕ, suc, true, Option, none, some, [], ◌∷◌, ◌-◌, ◌≤◌, ◌==◌, ◌≡◌, ◌⊎◌, refl, ap, arith,
  if◌then◌else◌, inl, inr, Bool-cases, get_elem?,
}
use tnfsd.Os.{Os}
use tnfsd.Tnfs.{Session, Io}
use tnfsd.Sessions.{Slots, Scan, Visit, visit, find_ip, close_session}
use tnfsd.Sessions.Table.{count_ip}

abbrev num_or : ℕ → Option ℕ → ℕ
num_or n none = n
num_or n (some m) = m

-- What the search for a client's sessions returns, from the slot `i` on: a slot that it was given, or
-- one further on, of a session of the client that is still there.
abbrev pub Recycles : ℕ → Option ℕ → ℕ → Scan → ℕ → Type 0
Recycles ip first i r j =
    (first ≡ some j)
    ⊎ ((i ≤ j)
        × ((s : Session) × (get_elem? r.slots (j - i) ≡ some (some s)) × ((s.ipaddr == ip) ≡ true)))

module _ (os : Os) (ip now : ℕ) where
  -- The same with a slot in front.
  one_on :
      (first : Option ℕ) (i j : ℕ) (o : Option Session) (r : Scan)
      → Recycles ip first (suc i) r j
      → Recycles ip first i (record r { slots = o ∷ r.slots }) j
  one_on first i j o r (inl e) = inl e
  one_on first i j o r (inr (h, (s, e, own))) =
      let step : j - i ≡ suc (j - suc i) = omega arith in inr (omega arith, (s, rw step e, own))

  visit_cases :
      (v : Visit)
      → (v ≡ Visit.expired) ⊎ ((v ≡ Visit.full) ⊎ ((v ≡ Visit.other) ⊎ (v ≡ Visit.match)))
  visit_cases Visit.expired = inl refl
  visit_cases Visit.full = inr (inl refl)
  visit_cases Visit.other = inr (inr (inl refl))
  visit_cases Visit.match = inr (inr (inr refl))

  match_own :
      (count : ℕ) (first : Option ℕ) (s : Session)
      → visit ip now count first s ≡ Visit.match
      → (s.ipaddr == ip) ≡ true
  unfolding visit
  match_own count first s e = ground arith

  -- The first session of the client is remembered.
  from_match :
      (count : ℕ) (first : Option ℕ) (i j : ℕ) (s : Session) (r : Scan)
      → (s.ipaddr == ip) ≡ true
      → Recycles ip (if count == 0 then some i else first) (suc i) r j
      → Recycles ip first i (record r { slots = some s ∷ r.slots }) j
  from_match count first i j s r own (inr further) = one_on first i j (some s) r (inr further)
  from_match count first i j s r own (inl e) = elim (Bool-cases (count == 0)) [
    | inr later ↦ inl (rw later at e)
    | inl now_first ↦
        let here : i ≡ j = ap (num_or i) (rw now_first at e) in
        let none_left : j - i ≡ 0 = omega arith in inr (omega arith, (s, rw none_left refl, own))
  ]

  pub count_ip-find_ip :
      (any count : ℕ) (first : Option ℕ) (i : ℕ) (slots : Slots) (io : Io)
      → count_ip any (find_ip os ip now count first i slots io).slots ≤ count_ip any slots
  unfolding find_ip count_ip
  count_ip-find_ip any count first i [] io = omega arith
  count_ip-find_ip any count first i (none ∷ rest) io =
      count_ip-find_ip any count first (suc i) rest io
  count_ip-find_ip any count first i (some s ∷ rest) io = grind (
    arith,
    count_ip-find_ip any count first (suc i) rest (close_session os s io),
    count_ip-find_ip any count first (suc i) rest io,
    count_ip-find_ip any (suc count) (if count == 0 then some i else first) (suc i) rest io,
  )

  pub find_ip-Recycles :
      (count : ℕ) (first : Option ℕ) (i j : ℕ) (slots : Slots) (io : Io)
      → (find_ip os ip now count first i slots io).found ≡ some j
      → Recycles ip first i (find_ip os ip now count first i slots io) j
  unfolding find_ip
  find_ip-Recycles count first i j [] io e = absurd (ground arith)
  find_ip-Recycles count first i j (none ∷ rest) io e =
      one_on first i j none (find_ip os ip now count first (suc i) rest io)
        (find_ip-Recycles count first (suc i) j rest io e)
  find_ip-Recycles count first i j (some s ∷ rest) io e =
      let io' = close_session os s io in
      let first' : Option ℕ = if count == 0 then some i else first in
      elim (visit_cases (visit ip now count first s)) [
        | inl gone ↦
            rw (gone, find_ip)
              (one_on first i j none (find_ip os ip now count first (suc i) rest io')
                (find_ip-Recycles count first (suc i) j rest io' (rw (gone, find_ip) at e)))
        | inr (inl limit) ↦ rw (limit, find_ip) (inl (rw (limit, find_ip) at e))
        | inr (inr (inl foreign)) ↦
            rw (foreign, find_ip)
              (one_on first i j (some s) (find_ip os ip now count first (suc i) rest io)
                (find_ip-Recycles count first (suc i) j rest io (rw (foreign, find_ip) at e)))
        | inr (inr (inr own)) ↦
            rw (own, find_ip)
              (from_match count first i j s (find_ip os ip now (suc count) first' (suc i) rest io)
                (match_own count first s own)
                (find_ip-Recycles (suc count) first' (suc i) j rest io (rw (own, find_ip) at e)))
      ]

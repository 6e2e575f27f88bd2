-- ===== src/Dir/Paging.antt =====
-- src/directory.c, `tnfs_readdirx`: the replies to one READDIRX after the other hand out the entries
-- in their order, none twice and none left out.
pub mod Draining
use tnfsd.Base.{
  ℕ, suc, List, [], ◌∷◌, ◌++◌, ◌+◌, ◌-◌, ◌≤◌, ◌<◌, ◌≡◌, refl, ap, arith, inl, inr, Bool-cases,
  length, take, drop,
}
use tnfsd.Tnfs.{DirEntry}
use tnfsd.Dir.Listing.{entry_bytes, stops, Filled, fill_reply}

-- The bytes of some entries, one after the other.
unfoldable pub entries_bytes : List DirEntry → List ℕ
entries_bytes [] = []
entries_bytes (e ∷ l) = entry_bytes e ++ entries_bytes l

-- A reply that begins with `sent` entries: what is put in, and what is left.
abbrev Splits : List DirEntry → ℕ → Filled → Type 0
Splits l sent f =
    (sent ≤ f.sent)
    × (f.bytes ≡ entries_bytes (take (f.sent - sent) l))
    × (f.rest ≡ drop (f.sent - sent) l)

minus_self : (n : ℕ) → n - n ≡ 0
minus_self n = omega arith

fill_reply-Splits :
    (req sent size : ℕ) (l : List DirEntry) → Splits l sent (fill_reply req l sent size)
unfolding fill_reply entries_bytes
fill_reply-Splits req sent size [] = rw (minus_self sent) (omega arith, refl, refl)
fill_reply-Splits req sent size (e ∷ l) = elim (Bool-cases (stops req sent size e)) [
  | inl stop ↦ rw (stop, fill_reply) (rw (minus_self sent) (omega arith, refl, refl))
  | inr go ↦
      let q = fill_reply-Splits req (suc sent) (size + 14 + length e.entrypath) l in
      let f = fill_reply req l (suc sent) (size + 14 + length e.entrypath) in
      let one_more : f.sent - sent ≡ suc (f.sent - suc sent) = omega (arith, q.0) in
      rw (go, fill_reply) (rw one_more (omega (arith, q.0), ap (λ b. entry_bytes e ++ b) q.1, q.2))
]

-- A READDIRX that asks for a number of entries is given no more.
fill_reply-limit :
    (req sent size : ℕ) (l : List DirEntry)
    → sent ≤ req
    → 0 < req
    → (fill_reply req l sent size).sent ≤ req
unfolding fill_reply stops
fill_reply-limit req sent size [] h p = h
fill_reply-limit req sent size (e ∷ l) h p =
    grind (arith, fill_reply-limit req (suc sent) (size + 14 + length e.entrypath) l)

fill_reply-progress :
    (req : ℕ) (e : DirEntry) (l : List DirEntry)
    → length e.entrypath ≤ 255
    → 0 < (fill_reply req (e ∷ l) 0 4).sent
unfolding fill_reply stops
fill_reply-progress req e l h =
    grind (arith, (fill_reply-Splits req 1 (4 + 14 + length e.entrypath) l).0)

-- One reply: it holds the first entries of those that were left, in their order, and the rest is
-- left for the next; and it holds one at least, where the first one's name is no longer than the 255
-- bytes that a loaded entry has room for.
pub fill_reply_lem :
    (req : ℕ) (e : DirEntry) (l : List DirEntry)
    → length e.entrypath ≤ 255
    → let f = fill_reply req (e ∷ l) 0 4 in
      (f.bytes ≡ entries_bytes (take f.sent (e ∷ l)))
      × (f.rest ≡ drop f.sent (e ∷ l))
      × (0 < f.sent)
fill_reply_lem req e l h =
    let s = fill_reply-Splits req 0 4 (e ∷ l) in
    let f = fill_reply req (e ∷ l) 0 4 in
    let whole : f.sent - 0 ≡ f.sent = omega arith in
    (rw whole at s.1, rw whole at s.2, fill_reply-progress req e l h)

-- ===== src/Sessions/Table.antt =====
-- src/session.c: what the searches of the table find, what an expiry leaves, and that an ID drawn is
-- free.
use tnfsd.Base.{
  ℕ, zero, suc, Bool, true, false, Option, none, some, Option-cases, [], ◌∷◌, ◌+◌, ◌%◌, ◌^◌, ◌<◌,
  ◌==◌, ◌&&◌, leb, ◌≡◌, refl, ap, arith, if◌then◌else◌, inl, inr, Bool-cases, map, All,
}
use tnfsd.Os.{Os, Call}
use tnfsd.Tnfs.{Session, Io, asked}
use tnfsd.Sessions.{
  Slots, Server, find_sid, tnfs_findsession_sid, expire_slots, newsid_tries, tnfs_newsid, find_ip,
  visit, tnfs_findsession_ipaddr, close_session, is_some,
}

-- Is the slot held by a session of this ID?
unfoldable pub has_sid : ℕ → Option Session → Bool
has_sid sid none = false
has_sid sid (some s) = s.sid == sid

-- No slot is.
abbrev pub Free : ℕ → Slots → Type 0
Free sid = All (λ o. has_sid sid o ≡ false)

find_sid-Free : (sid i : ℕ) (slots : Slots) → find_sid sid slots i ≡ none → Free sid slots
unfolding find_sid has_sid
find_sid-Free sid i [] e = tt
find_sid-Free sid i (none ∷ rest) e = (refl, find_sid-Free sid (suc i) rest e)
find_sid-Free sid i (some s ∷ rest) e = elim (Bool-cases (s.sid == sid)) [
  | inl same ↦ absurd (ground arith)
  | inr differ ↦ (differ, find_sid-Free sid (suc i) rest (ground arith))
]

-- The ID that is drawn is 0 or belongs to no session, and has 16 bits.
newsid_tries_lem :
    (os : Os) (tries : ℕ) (slots : Slots) (io : Io)
    → ((newsid_tries os tries slots io).0 == 0) ≡ false
    → Free (newsid_tries os tries slots io).0 slots × ((newsid_tries os tries slots io).0 < 65536)
unfolding newsid_tries
newsid_tries_lem os zero slots io e = absurd (ground arith)
newsid_tries_lem os (suc tries) slots io e =
    elim (Option-cases (tnfs_findsession_sid (os.rand io.calls % 2 ^ 16) slots)) [
      | inl fresh ↦
          rw (fresh, newsid_tries)
            (find_sid-Free (os.rand io.calls % 2 ^ 16) 0 slots fresh, omega arith)
      | inr (taken, t) ↦
          rw (t, newsid_tries)
            (newsid_tries_lem os tries slots (asked Call.rand io) (rw (t, newsid_tries) at e))
    ]

-- An ID that is drawn, if it is not 0, which stands for none, has 16 bits and belongs to no session.
pub tnfs_newsid-Free :
    (os : Os) (slots : Slots) (io : Io)
    → ((tnfs_newsid os slots io).0 == 0) ≡ false
    → Free (tnfs_newsid os slots io).0 slots × ((tnfs_newsid os slots io).0 < 65536)
unfolding tnfs_newsid
tnfs_newsid-Free os slots io e = newsid_tries_lem os 255 slots io e

-- What an expiry at the time `now` does to a slot: a session that was heard of 600 seconds ago or
-- more and is on no TCP connection goes.
unfoldable pub keep : ℕ → Option Session → Option Session
keep now none = none
keep now (some s) = if leb (s.last_contact + 600) now && s.cli_fd == 0 then none else some s

-- An expiry of the whole table, by slots.
pub expire_slots-map :
    (os : Os) (now : ℕ) (slots : Slots) (io : Io)
    → (expire_slots os now slots io).0 ≡ map (keep now) slots
unfolding expire_slots keep
expire_slots-map os now [] io = refl
expire_slots-map os now (none ∷ rest) io = ap (λ l. none ∷ l) (expire_slots-map os now rest io)
expire_slots-map os now (some s ∷ rest) io =
    ap (λ l. keep now (some s) ∷ l) (expire_slots-map os now rest _)

-- The number of sessions of a client.
unfoldable pub count_ip : ℕ → Slots → ℕ
count_ip ip [] = 0
count_ip ip (none ∷ rest) = count_ip ip rest
count_ip ip (some s ∷ rest) = if s.ipaddr == ip then suc (count_ip ip rest) else count_ip ip rest

find_ip-count :
    (os : Os) (ip now count : ℕ) (first : Option ℕ) (i : ℕ) (slots : Slots) (io : Io)
    → count < 16
    → ((count == 0) ≡ false → is_some first ≡ true)
    → (find_ip os ip now count first i slots io).found ≡ none
    → count + count_ip ip (find_ip os ip now count first i slots io).slots < 16
unfolding find_ip visit count_ip
find_ip-count os ip now count first i [] io h g e = omega arith
find_ip-count os ip now count first i (none ∷ rest) io h g e =
    find_ip-count os ip now count first (suc i) rest io h g e
find_ip-count os ip now count first i (some s ∷ rest) io h g e = grind (
  arith,
  find_ip-count os ip now count first (suc i) rest (close_session os s io),
  find_ip-count os ip now count first (suc i) rest io,
  find_ip-count os ip now (suc count) (if count == 0 then some i else first) (suc i) rest io,
)

-- Where the search for the sessions of a client gives none to recycle, the client has fewer than 16
-- sessions in the table that it leaves.
pub tnfs_findsession_ipaddr-count :
    (os : Os) (ip : ℕ) (srv : Server)
    → (tnfs_findsession_ipaddr os ip srv).found ≡ none
    → count_ip ip (tnfs_findsession_ipaddr os ip srv).slots < 16
unfolding tnfs_findsession_ipaddr
tnfs_findsession_ipaddr-count os ip srv e = omega (
  arith,
  find_ip-count os ip (os.time srv.calls) 0 none 0 srv.slist (asked Call.time srv.io) (omega arith)
      (λ h. absurd (ground arith)) e,
)

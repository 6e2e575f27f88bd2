-- ===== src/Sessions/Expiry.antt =====
-- src/session.c, `tnfs_expire_sessions`: which sessions it frees, and what a freed one leaves.
use tnfsd.Base.{
  ℕ, zero, suc, Bool, true, false, ◌&&◌, Option, none, some, List, [], ◌∷◌, ◌+◌, ◌==◌, leb, ◌≡◌,
  ◌⊎◌, ◌∙◌, ap, refl, arith, inl, inr, Bool-cases, get_elem?, All, map, if◌then◌else◌, Option-cases,
}
use tnfsd.Os.{Os, Call}
use tnfsd.Tnfs.{Session, DirHandle, Io, asked}
use tnfsd.Sessions.{Server, Slots, close_fds, close_session, expire_slots, tnfs_expire_sessions}
use tnfsd.Sessions.Table.{keep, expire_slots-map}
use tnfsd.Sessions.Closing.{
  Made, Made-close_dhandles, Made-close_fds, close_fds-Made, close_dhandles-Made,
}

-- It was heard of 600 seconds ago or more, and is on no TCP connection.
abbrev pub is_idle : ℕ → Session → Bool
is_idle now s = leb (s.last_contact + 600) now && s.cli_fd == 0

abbrev FileClosed : List Call → ℕ → Type 0
FileClosed calls fd = ((fd == 0) ≡ true) ⊎ Made (Call.close_file fd) calls

abbrev StreamClosed : List Call → Option ℕ → Type 0
StreamClosed calls none = Unit {0}
StreamClosed calls (some d) = Made (Call.closedir d) calls

-- Nothing of the session is left open: each descriptor in use was closed, and so was the stream of
-- each directory handle that has one.
abbrev pub Released : Session → List Call → Type 0
Released s calls = All (FileClosed calls) s.fd × All (λ dh. StreamClosed calls dh.handle) s.dhandles

-- What the expiry at a time does about a session in the slot `i`.
abbrev pub Expires : ℕ → ℕ → Session → Server → Type 0
Expires now i s srv =
    ((is_idle now s ≡ true) × (get_elem? srv.slist i ≡ some none) × Released s srv.calls)
    ⊎ ((is_idle now s ≡ false) × (get_elem? srv.slist i ≡ some (some s)))

All-get_elem? :
    {A : Type 0} (P : A → Type 0) (l : List A)
    → ((j : ℕ) (a : A) → get_elem? l j ≡ some a → P a)
    → All P l
All-get_elem? P [] h = tt
All-get_elem? P (a ∷ l) h = (h 0 a refl, All-get_elem? P l (λ j b e. h (suc j) b e))

get_elem?-keep :
    (now : ℕ) (slots : Slots) (i : ℕ) (o : Option Session)
    → get_elem? slots i ≡ some o
    → get_elem? (map (keep now) slots) i ≡ some (keep now o)
get_elem?-keep now [] i o e = absurd (ground arith)
get_elem?-keep now (p ∷ slots) zero o e = ap (λ q. get_elem? (map (keep now) (at p q ∷ [])) 0) e
  where
    at : Option Session → Option (Option Session) → Option Session
    at p none = p
    at p (some q) = q
get_elem?-keep now (p ∷ slots) (suc i) o e = get_elem?-keep now slots i o e

module _ (os : Os) where
  Made-close_session :
      (c : Call) (s : Session) (io : Io) → Made c io.calls → Made c (close_session os s io).calls
  unfolding close_session
  Made-close_session c s io m =
      Made-close_dhandles c os s.dhandles (close_fds os s.fd io) (Made-close_fds c os s.fd io m)

  Made-expire_slots :
      (now : ℕ) (slots : Slots) (c : Call) (io : Io)
      → Made c io.calls
      → Made c (expire_slots os now slots io).1.calls
  unfolding expire_slots
  Made-expire_slots now [] c io m = m
  Made-expire_slots now (none ∷ rest) c io m = Made-expire_slots now rest c io m
  Made-expire_slots now (some s ∷ rest) c io m = elim (Bool-cases (is_idle now s)) [
    | inl idle ↦
        rw (idle, expire_slots)
          (Made-expire_slots now rest c (close_session os s io) (Made-close_session c s io m))
    | inr busy ↦ rw (busy, expire_slots) (Made-expire_slots now rest c io m)
  ]

  -- A call that freeing an idle session makes is made.
  expire_slots-Made :
      (now : ℕ) (slots : Slots) (i : ℕ) (s : Session) (c : Call) (io : Io)
      → get_elem? slots i ≡ some (some s)
      → is_idle now s ≡ true
      → ((io : Io) → Made c (close_session os s io).calls)
      → Made c (expire_slots os now slots io).1.calls
  unfolding expire_slots
  expire_slots-Made now [] i s c io e idle made = absurd (ground arith)
  expire_slots-Made now (none ∷ rest) zero s c io e idle made = absurd (ground arith)
  expire_slots-Made now (some t ∷ rest) zero s c io e idle made =
      let same : t ≡ s = cc in
      rw (same, idle, expire_slots) (Made-expire_slots now rest c (close_session os s io) (made io))
  expire_slots-Made now (none ∷ rest) (suc i) s c io e idle made =
      expire_slots-Made now rest i s c io e idle made
  expire_slots-Made now (some t ∷ rest) (suc i) s c io e idle made =
      expire_slots-Made now rest i s c _ e idle made

  closes_file :
      (s : Session) (j fd : ℕ) (io : Io)
      → get_elem? s.fd j ≡ some fd
      → (fd == 0) ≡ false
      → Made (Call.close_file fd) (close_session os s io).calls
  unfolding close_session
  closes_file s j fd io e used =
      Made-close_dhandles (Call.close_file fd) os s.dhandles (close_fds os s.fd io)
        (close_fds-Made os s.fd j fd io e used)

  closes_stream :
      (s : Session) (j d : ℕ) (dh : DirHandle) (io : Io)
      → get_elem? s.dhandles j ≡ some dh
      → dh.handle ≡ some d
      → Made (Call.closedir d) (close_session os s io).calls
  unfolding close_session
  closes_stream s j d dh io e h =
      close_dhandles-Made os s.dhandles j d dh (close_fds os s.fd io) e h

  module _ (now : ℕ) (slots : Slots) (i : ℕ) (s : Session) (io : Io)
      (there : get_elem? slots i ≡ some (some s)) (idle : is_idle now s ≡ true) where
    abbrev after : List Call
    after = (expire_slots os now slots io).1.calls

    file-FileClosed : (j fd : ℕ) → get_elem? s.fd j ≡ some fd → FileClosed after fd
    file-FileClosed j fd e = elim (Bool-cases (fd == 0)) [
      | inl free ↦ inl free
      | inr used ↦ inr (
          expire_slots-Made now slots i s (Call.close_file fd) io there idle
            (λ io. closes_file s j fd io e used))
    ]

    stream-StreamClosed :
        (j : ℕ) (dh : DirHandle) → get_elem? s.dhandles j ≡ some dh → StreamClosed after dh.handle
    stream-StreamClosed j dh e = elim (Option-cases dh.handle) [
      | inl closed ↦ rw closed tt
      | inr (d, h) ↦ rw h (
          expire_slots-Made now slots i s (Call.closedir d) io there idle
            (λ io. closes_stream s j d dh io e h))
    ]

    expire_slots-Released : Released s after
    expire_slots-Released = (
      All-get_elem? (FileClosed after) s.fd file-FileClosed,
      All-get_elem? (λ dh. StreamClosed after dh.handle) s.dhandles stream-StreamClosed,
    )

  -- The expiry, at the time that it asks for, does to the session in any slot what its last contact
  -- and its connection call for. One that was heard of 600 seconds ago or more and is on no TCP
  -- connection is freed: its slot is empty, each of its descriptors in use is closed, and so is the
  -- stream of each directory handle that has one. Any other stays in its slot as it is.
  pub tnfs_expire_sessions-Expires :
      (srv : Server) (i : ℕ) (s : Session)
      → get_elem? srv.slist i ≡ some (some s)
      → Expires (os.time srv.calls) i s (tnfs_expire_sessions os srv)
  unfolding tnfs_expire_sessions keep
  tnfs_expire_sessions-Expires srv i s e =
      let now = os.time srv.calls in
      let io = asked Call.time srv.io in
      let left =
        ap (λ l. get_elem? l i) (expire_slots-map os now srv.slist io)
        ∙ get_elem?-keep now srv.slist i (some s) e in
      elim (Bool-cases (is_idle now s)) [
        | inl idle ↦ inl (
          idle,
          left ∙ ap (λ b. some (if b then none else some s)) idle,
          expire_slots-Released now srv.slist i s io e idle,
        )
        | inr busy ↦ inr (busy, left ∙ ap (λ b. some (if b then none else some s)) busy)
      ]

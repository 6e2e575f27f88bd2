-- ===== src/Sessions/Sound.antt =====
-- src/session.c: every session's tables have their size, its kept message fits, and the connection
-- that it names is there; MOUNT, UMOUNT and the expiry of sessions leave the connections alone.
pub mod Mounting
use tnfsd.Base.{
  ℕ, zero, suc, Bool, true, false, not, ◌||◌, Option, none, some, Option-cases, List, [], ◌∷◌, ◌+◌,
  ◌≤◌, ◌==◌, ◌≡◌, ◌∙◌, refl, ap, sym, subst, arith, ltb, if◌then◌else◌, inl, inr, Bool-cases,
  get_elem?, set, length, map, All, length-replicate,
}
use tnfsd.Os.{Os, Call}
use tnfsd.Tnfs.{last_byte, Config, Session, DirHandle, Header, Buf, Io, Ctx, asked, fresh_session}
use tnfsd.Strl.{strlcpy}
use tnfsd.Path.{validate_dir}
use tnfsd.Send.{reply}
use tnfsd.Shape.{conns, shape, Fits, Keeps, Keeps-reply}
use tnfsd.Dir.{close_stream}
use tnfsd.Dir.Keeps.{conns-close_stream}
use tnfsd.Sessions.{
  Slots, Server, find_ip, close_fds, close_dhandles, close_session, tnfs_findsession_ipaddr,
  tnfs_freesession, newsid_tries, tnfs_newsid, expire_slots, tnfs_session_expired,
}
use tnfsd.Sessions.Mount.{
  free_index, fill_slot, tnfs_allocsession, make_room, answer_mount, set_up, tnfs_mount,
  tnfs_umount,
}
use tnfsd.Sessions.Table.{keep}
use tnfsd.Sessions.Change.{All-set}

-- Is it 0, for no connection, or one of the descriptors?
unfoldable pub linked : List ℕ → ℕ → Bool
linked [] fd = fd == 0
linked (c ∷ cs) fd = c == fd || linked cs fd

abbrev pub IsSound : List ℕ → Session → Type 0
IsSound c s =
    (length s.fd ≡ 16)
    × (length s.atari_fd ≡ 16)
    × (length s.dhandles ≡ 8)
    × Fits s
    × (linked c s.cli_fd ≡ true)

abbrev pub SlotSound : List ℕ → Option Session → Type 0
SlotSound c none = Unit {0}
SlotSound c (some s) = IsSound c s

abbrev pub Sound : List ℕ → Slots → Type 0
Sound c = All (SlotSound c)

pub linked-zero : (c : List ℕ) → linked c 0 ≡ true
unfolding linked
linked-zero [] = refl
linked-zero (f ∷ fs) = grind (arith, linked-zero fs)

-- What a handler keeps is enough.
pub IsSound-Keeps : (c : List ℕ) (x y : Ctx) → Keeps x y → IsSound c x.sess → IsSound c y.sess
unfolding shape
IsSound-Keeps c x y k s =
    let fd_of = ap (λ p. p.3) k.0 in
    let atari_of = ap (λ p. p.4) k.0 in
    let dhandles_of = ap (λ p. p.5) k.0 in
    let cli_fd_of = ap (λ p. p.2) k.0 in
    (fd_of ∙ s.0, atari_of ∙ s.1, dhandles_of ∙ s.2, k.1 s.3, ap (linked c) cli_fd_of ∙ s.4)

pub conns_of_Keeps : (x y : Ctx) → Keeps x y → conns y.io ≡ conns x.io
unfolding shape
conns_of_Keeps x y k = ap (λ p. p.6) k.0

fresh-IsSound : (c : List ℕ) (sid : ℕ) → IsSound c (record fresh_session { sid = sid })
unfolding fresh_session
fresh-IsSound c sid = (refl, refl, refl, (refl, omega arith), linked-zero c)

module _ (os : Os) where
  conns-close_fds : (fds : List ℕ) (io : Io) → conns (close_fds os fds io) ≡ conns io
  unfolding close_fds
  conns-close_fds [] io = refl
  conns-close_fds (fd ∷ fds) io = grind (arith, conns-close_fds fds)

  conns-close_dhandles :
      (hs : List DirHandle) (io : Io) → conns (close_dhandles os hs io) ≡ conns io
  unfolding close_dhandles
  conns-close_dhandles [] io = refl
  conns-close_dhandles (dh ∷ hs) io =
      grind (arith, conns-close_dhandles hs, conns-close_stream dh.handle)

  pub conns-close_session : (s : Session) (io : Io) → conns (close_session os s io) ≡ conns io
  unfolding close_session
  conns-close_session s io =
      conns-close_dhandles s.dhandles (close_fds os s.fd io) ∙ conns-close_fds s.fd io

  module _ (ip now : ℕ) where
    conns-find_ip :
        (count : ℕ) (first : Option ℕ) (i : ℕ) (slots : Slots) (io : Io)
        → conns (find_ip os ip now count first i slots io).io ≡ conns io
    unfolding find_ip
    conns-find_ip count first i [] io = refl
    conns-find_ip count first i (none ∷ rest) io = conns-find_ip count first (suc i) rest io
    conns-find_ip count first i (some s ∷ rest) io =
        grind (arith, conns-close_session, λ (c : ℕ) (f : Option ℕ). conns-find_ip c f (suc i) rest)

    find_ip-All :
        (P : Option Session → Type 0) (count : ℕ) (first : Option ℕ) (i : ℕ) (slots : Slots)
        (io : Io)
        → P none
        → All P slots
        → All P (find_ip os ip now count first i slots io).slots
    unfolding find_ip
    find_ip-All P count first i [] io p all = tt
    find_ip-All P count first i (none ∷ rest) io p all =
        (all.0, find_ip-All P count first (suc i) rest io p all.1)
    find_ip-All P count first i (some s ∷ rest) io p all = grind (
      arith,
      p,
      all,
      find_ip-All P count first (suc i) rest (close_session os s io) p all.1,
      find_ip-All P count first (suc i) rest io p all.1,
      find_ip-All P (suc count) (if count == 0 then some i else first) (suc i) rest io p all.1,
    )

  conns-newsid_tries :
      (tries : ℕ) (slots : Slots) (io : Io) → conns (newsid_tries os tries slots io).1 ≡ conns io
  unfolding newsid_tries
  conns-newsid_tries zero slots io = refl
  conns-newsid_tries (suc tries) slots io = grind (arith, conns-newsid_tries tries slots)

  conns-tnfs_newsid : (slots : Slots) (io : Io) → conns (tnfs_newsid os slots io).1 ≡ conns io
  unfolding tnfs_newsid
  conns-tnfs_newsid slots io = conns-newsid_tries 255 slots io

  pub conns-allocsession :
      (sid : ℕ) (srv : Server) → conns (tnfs_allocsession os sid srv).server.io ≡ conns srv.io
  unfolding tnfs_allocsession fill_slot
  conns-allocsession sid srv = grind (arith, conns-tnfs_newsid srv.slist)

  pub conns-make_room : (ip : ℕ) (srv : Server) → conns (make_room os ip srv).1.io ≡ conns srv.io
  unfolding make_room tnfs_findsession_ipaddr tnfs_freesession
  conns-make_room ip srv = grind (arith, conns-close_session, conns-find_ip ip)

  pub make_room-Sound :
      (c : List ℕ) (ip : ℕ) (srv : Server)
      → Sound c srv.slist
      → Sound c (make_room os ip srv).1.slist
  unfolding make_room tnfs_findsession_ipaddr tnfs_freesession
  make_room-Sound c ip srv all =
      let now = os.time srv.calls in
      let io = asked Call.time srv.io in
      let r = find_ip os ip now 0 none 0 srv.slist io in
      let left = find_ip-All ip now (SlotSound c) 0 none 0 srv.slist io tt all in
      elim (Option-cases r.found) [
        | inl nothing ↦ rw (nothing, make_room) left
        | inr (i, f) ↦ elim (Option-cases (get_elem? r.slots i)) [
          | inl outside ↦ rw (f, outside, make_room) left
          | inr (none, e) ↦ rw (f, e, make_room) left
          | inr (some s, e) ↦ rw (f, e, make_room) (All-set (SlotSound c) i none r.slots left tt)
        ]
      ]

  fill_slot-Sound :
      (c : List ℕ) (i sid : ℕ) (srv : Server)
      → Sound c srv.slist
      → Sound c (fill_slot i sid srv).server.slist
  unfolding fill_slot
  fill_slot-Sound c i sid srv all =
      All-set (SlotSound c) i (some (record fresh_session { sid = sid })) srv.slist all
        (fresh-IsSound c sid)

  -- What is allocated, if anything, is sound.
  abbrev pub Given : List ℕ → Option (ℕ × Session) → Type 0
  Given c none = Unit {0}
  Given c (some (i, s)) = IsSound c s

  fill_slot-Given : (c : List ℕ) (i sid : ℕ) (srv : Server) → Given c (fill_slot i sid srv).slot
  unfolding fill_slot
  fill_slot-Given c i sid srv = fresh-IsSound c sid

  pub allocsession-Sound :
      (c : List ℕ) (sid : ℕ) (srv : Server)
      → Sound c srv.slist
      → Sound c (tnfs_allocsession os sid srv).server.slist
        × Given c (tnfs_allocsession os sid srv).slot
  unfolding tnfs_allocsession
  allocsession-Sound c sid srv all = elim (Option-cases (free_index srv.slist 0)) [
    | inl full ↦ rw (full, tnfs_allocsession) (all, tt)
    | inr (i, e) ↦
        let io = asked (Call.malloc os.session_size) srv.io in
        let drawn = tnfs_newsid os srv.slist io in
        elim (Bool-cases (os.malloc srv.calls os.session_size)) [
          | inr fails ↦ rw (e, fails, tnfs_allocsession) (all, tt)
          | inl got ↦ elim (Bool-cases (ltb 0 sid)) [
            | inl reused ↦
                rw (e, got, reused, tnfs_allocsession)
                  (
                    fill_slot-Sound c i sid (record srv { io = io }) all,
                    fill_slot-Given c i sid (record srv { io = io }),
                  )
            | inr fresh ↦ elim (Bool-cases (drawn.0 == 0)) [
              | inl used_up ↦ rw (e, got, fresh, used_up, tnfs_allocsession) (all, tt)
              | inr ok ↦
                  rw (e, got, fresh, ok, tnfs_allocsession)
                    (
                      fill_slot-Sound c i drawn.0 (record srv { io = drawn.1 }) all,
                      fill_slot-Given c i drawn.0 (record srv { io = drawn.1 }),
                    )
            ]
          ]
        ]
  ]

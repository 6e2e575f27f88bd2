-- ===== src/Sessions/Replies.antt =====
-- src/session.c: what the work on sessions sends and calls. A MOUNT sends one message at most, an
-- UMOUNT one; freeing a session, looking for one or drawing an ID sends none.
use tnfsd.Base.{
  not, ◌||◌, inl, inr, Bool-cases, All, ℕ, zero, suc, Option, none, some, List, [], ◌∷◌, ◌≤◌, ◌≡◌,
  ◌∙◌, refl, arith,
}
use tnfsd.Os.{Os, sends, is_mutating, Call, HoldsOfReads}
use tnfsd.Tnfs.{Config, Session, DirHandle, Header, Buf, Io}
use tnfsd.Path.{validate_dir}
use tnfsd.Send.Laws.{sends-reply, All-reply}
use tnfsd.Dir.{close_stream, is_null}
use tnfsd.Dir.Replies.{sends-close_stream}
use tnfsd.Dir.Calls.{close_stream-Quiet}
use tnfsd.Sessions.{
  Server, Slots, close_fds, close_dhandles, close_session, tnfs_freesession, find_ip,
  tnfs_findsession_ipaddr, newsid_tries, tnfs_newsid,
}
use tnfsd.Sessions.Mount.{
  fill_slot, tnfs_allocsession, make_room, answer_mount, set_up, tnfs_mount, tnfs_umount,
}

module _ (P : Call → Type 0) (reads : HoldsOfReads P) where
  -- No message between the two states, and if all calls had the property, all have it.
  abbrev pub Silent : Io → Io → Type 0
  Silent io io' = (sends io'.calls ≡ sends io.calls) × (All P io.calls → All P io'.calls)

  Silent-trans : (a b c : Io) → Silent a b → Silent b c → Silent a c
  Silent-trans a b c p q = (q.0 ∙ p.0, λ h. q.1 (p.1 h))

  module _ (os : Os) where
    close_fds-Silent : (fds : List ℕ) (io : Io) → Silent io (close_fds os fds io)
    unfolding close_fds sends is_mutating
    close_fds-Silent [] io = (refl, λ q. q)
    close_fds-Silent (fd ∷ fds) io =
        (grind (arith, close_fds-Silent fds), λ q. grind (arith, reads, close_fds-Silent fds))

    close_dhandles-Silent : (hs : List DirHandle) (io : Io) → Silent io (close_dhandles os hs io)
    unfolding close_dhandles
    close_dhandles-Silent [] io = (refl, λ q. q)
    close_dhandles-Silent (dh ∷ hs) io =
        elim (Bool-cases (dh.loaded || (dh.is_open || not (is_null dh.handle)))) [
          | inl used ↦
              rw (used, close_dhandles)
                (Silent-trans io (close_stream dh.handle io)
                  (close_dhandles os hs (close_stream dh.handle io))
                  (sends-close_stream dh.handle io, close_stream-Quiet P reads dh.handle io)
                  (close_dhandles-Silent hs (close_stream dh.handle io)))
          | inr free ↦ rw (free, close_dhandles) (close_dhandles-Silent hs io)
        ]

    pub close_session-Silent : (s : Session) (io : Io) → Silent io (close_session os s io)
    unfolding close_session
    close_session-Silent s io =
        Silent-trans io (close_fds os s.fd io) (close_session os s io) (close_fds-Silent s.fd io)
          (close_dhandles-Silent s.dhandles (close_fds os s.fd io))

    find_ip-Silent :
        (ip now count : ℕ) (first : Option ℕ) (i : ℕ) (slots : Slots) (io : Io)
        → Silent io (find_ip os ip now count first i slots io).io
    unfolding find_ip
    find_ip-Silent ip now count first i [] io = (refl, λ q. q)
    find_ip-Silent ip now count first i (none ∷ rest) io =
        find_ip-Silent ip now count first (suc i) rest io
    find_ip-Silent ip now count first i (some s ∷ rest) io = (
      grind (
        arith,
        close_session-Silent,
        λ (c : ℕ) (f : Option ℕ). find_ip-Silent ip now c f (suc i) rest,
      ),
      λ q. grind (
        arith,
        reads,
        close_session-Silent,
        λ (c : ℕ) (f : Option ℕ). find_ip-Silent ip now c f (suc i) rest,
      ),
    )

    newsid_tries-Silent :
        (tries : ℕ) (slots : Slots) (io : Io) → Silent io (newsid_tries os tries slots io).1
    unfolding newsid_tries sends is_mutating
    newsid_tries-Silent zero slots io = (refl, λ q. q)
    newsid_tries-Silent (suc tries) slots io = (
      grind (arith, newsid_tries-Silent tries slots),
      λ q. grind (arith, reads, newsid_tries-Silent tries slots),
    )

    newsid-Silent : (slots : Slots) (io : Io) → Silent io (tnfs_newsid os slots io).1
    unfolding tnfs_newsid
    newsid-Silent slots io = newsid_tries-Silent 255 slots io

    allocsession-Silent :
        (sid : ℕ) (srv : Server) → Silent srv.io (tnfs_allocsession os sid srv).server.io
    unfolding tnfs_allocsession fill_slot sends is_mutating
    allocsession-Silent sid srv =
        (grind (arith, newsid-Silent srv.slist), λ q. grind (arith, reads, newsid-Silent srv.slist))

    make_room-Silent : (ip : ℕ) (srv : Server) → Silent srv.io (make_room os ip srv).1.io
    unfolding make_room tnfs_findsession_ipaddr tnfs_freesession sends is_mutating
    make_room-Silent ip srv = (
      grind (arith, close_session-Silent, find_ip-Silent ip),
      λ q. grind (arith, reads, close_session-Silent, find_ip-Silent ip),
    )

  module _ (os : Os) (conf : Config) (hdr : Header) where
    validate_dir-Silent : (s : Session) (io : Io) → Silent io (validate_dir os conf s io).1
    unfolding validate_dir sends is_mutating
    validate_dir-Silent s io = (ground arith, λ q. grind (arith, reads))

    -- The same with one message at most.
    abbrev OneAtMost : Io → Io → Type 0
    OneAtMost io io' = (sends io'.calls ≤ suc (sends io.calls)) × (All P io.calls → All P io'.calls)

    pub tnfs_umount-Answered :
        (s : Session) (i : ℕ) (srv : Server)
        → (sends (tnfs_umount os conf hdr s i srv).calls ≡ suc (sends srv.calls))
          × (All P srv.calls → All P (tnfs_umount os conf hdr s i srv).calls)
    unfolding tnfs_umount tnfs_freesession
    tnfs_umount-Answered s i srv = (
      grind (arith, sends-reply os hdr, close_session-Silent os),
      λ q. grind (arith, reads, All-reply os P reads hdr, close_session-Silent os),
    )

    answer_mount-OneAtMost :
        (i : ℕ) (s : Session) (srv : Server)
        → OneAtMost srv.io (answer_mount os conf hdr i s srv).io
    unfolding answer_mount tnfs_freesession
    answer_mount-OneAtMost i s srv = (
      grind (arith, sends-reply os, close_session-Silent os, validate_dir-Silent),
      λ q. grind (arith, reads, All-reply os P reads, close_session-Silent os, validate_dir-Silent),
    )

    set_up-OneAtMost :
        (cliroot : List ℕ) (i : ℕ) (s : Session) (srv : Server)
        → OneAtMost srv.io (set_up os conf hdr cliroot i s srv).io
    unfolding set_up sends is_mutating
    set_up-OneAtMost cliroot i s srv =
        (grind (arith, answer_mount-OneAtMost), λ q. grind (arith, reads, answer_mount-OneAtMost))

    -- A MOUNT is answered by one message at most, and makes no call that changes a file.
    pub tnfs_mount-OneAtMost :
        (b : Buf) (srv : Server) → OneAtMost srv.io (tnfs_mount os conf hdr b srv).io
    unfolding tnfs_mount
    tnfs_mount-OneAtMost b srv = (
      grind (arith, set_up-OneAtMost, make_room-Silent os, allocsession-Silent os),
      λ q. grind (arith, reads, set_up-OneAtMost, make_room-Silent os, allocsession-Silent os),
    )

-- ===== src/Sessions/Closing.antt =====
-- src/session.c, `tnfs_freesession`: a session that is freed leaves no descriptor and no directory
-- stream open.
use tnfsd.Base.{
  ℕ, zero, suc, Bool, true, false, not, ◌||◌, Option, none, some, List, [], ◌∷◌, ◌==◌, ◌≡◌, ◌∙◌, ap,
  refl, arith, inl, inr, Bool-cases, get_elem?,
}
use tnfsd.Os.{Os, Call}
use tnfsd.Tnfs.{Session, DirHandle, Io}
use tnfsd.Dir.{close_stream, is_null}
use tnfsd.Sessions.{Server, close_fds, close_dhandles, tnfs_freesession}

abbrev or_else {ℓ} : {A : Type ℓ} → A → Option A → A
or_else a none = a
or_else a (some b) = b

-- The call was made.
abbrev pub Made : Call → List Call → Type 0
Made c calls = (j : ℕ) × (get_elem? calls j ≡ some c)

Made-close_stream :
    (c : Call) (h : Option ℕ) (io : Io) → Made c io.calls → Made c (close_stream h io).calls
unfolding close_stream
Made-close_stream c none io m = m
Made-close_stream c (some d) io m = (suc m.0, m.1)

pub Made-close_dhandles :
    (c : Call) (os : Os) (hs : List DirHandle) (io : Io)
    → Made c io.calls
    → Made c (close_dhandles os hs io).calls
unfolding close_dhandles
Made-close_dhandles c os [] io m = m
Made-close_dhandles c os (dh ∷ hs) io m =
    elim (Bool-cases (dh.loaded || (dh.is_open || not (is_null dh.handle)))) [
      | inl used ↦
          rw (used, close_dhandles)
            (Made-close_dhandles c os hs (close_stream dh.handle io)
              (Made-close_stream c dh.handle io m))
      | inr free ↦ rw (free, close_dhandles) (Made-close_dhandles c os hs io m)
    ]

pub Made-close_fds :
    (c : Call) (os : Os) (fds : List ℕ) (io : Io)
    → Made c io.calls
    → Made c (close_fds os fds io).calls
unfolding close_fds
Made-close_fds c os [] io m = m
Made-close_fds c os (fd ∷ fds) io m = elim (Bool-cases (fd == 0)) [
  | inl free ↦ rw (free, close_fds) (Made-close_fds c os fds io m)
  | inr used ↦ rw (used, close_fds) (Made-close_fds c os fds _ (suc m.0, m.1))
]

pub close_fds-Made :
    (os : Os) (fds : List ℕ) (i fd : ℕ) (io : Io)
    → get_elem? fds i ≡ some fd
    → (fd == 0) ≡ false
    → Made (Call.close_file fd) (close_fds os fds io).calls
unfolding close_fds
close_fds-Made os [] i fd io e used = absurd (ground arith)
close_fds-Made os (g ∷ fds) zero fd io e used =
    let same : g ≡ fd = ap (or_else g) e in
    rw (same, used, close_fds) (Made-close_fds (Call.close_file fd) os fds _ (0, refl))
close_fds-Made os (g ∷ fds) (suc i) fd io e used = close_fds-Made os fds i fd _ e used

is_used : (loaded is_open : Bool) → (loaded || (is_open || true)) ≡ true
is_used true is_open = refl
is_used false true = refl
is_used false false = refl

pub close_dhandles-Made :
    (os : Os) (hs : List DirHandle) (i d : ℕ) (dh : DirHandle) (io : Io)
    → get_elem? hs i ≡ some dh
    → dh.handle ≡ some d
    → Made (Call.closedir d) (close_dhandles os hs io).calls
unfolding close_dhandles close_stream
close_dhandles-Made os [] i d dh io e h = absurd (ground arith)
close_dhandles-Made os (g ∷ hs) zero d dh io e h =
    let same : g.handle ≡ some d = ap (λ o. (or_else g o).handle) e ∙ h in
    let used : (g.loaded || (g.is_open || not (is_null g.handle))) ≡ true =
      rw same (is_used g.loaded g.is_open) in
    rw (used, same, close_dhandles, close_stream)
      (Made-close_dhandles (Call.closedir d) os hs _ (0, refl))
close_dhandles-Made os (g ∷ hs) (suc i) d dh io e h = close_dhandles-Made os hs i d dh _ e h

-- Freeing a session closes every descriptor that is open in it.
pub tnfs_freesession-close_file :
    (os : Os) (s : Session) (slot i fd : ℕ) (srv : Server)
    → get_elem? s.fd i ≡ some fd
    → (fd == 0) ≡ false
    → Made (Call.close_file fd) (tnfs_freesession os s slot srv).calls
unfolding tnfs_freesession
tnfs_freesession-close_file os s slot i fd srv e used =
    Made-close_dhandles (Call.close_file fd) os s.dhandles (close_fds os s.fd srv.io)
      (close_fds-Made os s.fd i fd srv.io e used)

-- Freeing a session closes the stream of every directory handle that has one.
pub tnfs_freesession-closedir :
    (os : Os) (s : Session) (slot i d : ℕ) (dh : DirHandle) (srv : Server)
    → get_elem? s.dhandles i ≡ some dh
    → dh.handle ≡ some d
    → Made (Call.closedir d) (tnfs_freesession os s slot srv).calls
unfolding tnfs_freesession
tnfs_freesession-closedir os s slot i d dh srv e h =
    close_dhandles-Made os s.dhandles i d dh (close_fds os s.fd srv.io) e h

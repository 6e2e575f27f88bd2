-- ===== src/Server/Event.antt =====
-- src/event_epoll.c, src/event_common.c: the descriptors that the daemon waits on. The epoll instance
-- is the only one, and is left out.
pub mod Select
pub mod Kqueue
use tnfsd.Base.{ℕ, Bool, true, false, ◌||◌, List, [], ◌∷◌, ◌*◌, ◌==◌}
use tnfsd.Os.{Os, Call, Result, ok, err}
use tnfsd.Tnfs.{Io, did}

abbrev pub succeeded : Result (Unit {0}) → Bool
succeeded (ok u) = true
succeeded (err e) = false

module _ (os : Os) where
  unfoldable pub tnfs_event_register : ℕ → Io → Bool × Io
  tnfs_event_register fd io =
      let r = os.epoll_add io.calls fd in (succeeded r, did (Call.epoll_add fd) r io)

  unfoldable pub tnfs_event_unregister : ℕ → Io → Io
  tnfs_event_unregister fd io = did (Call.epoll_del fd) (os.epoll_del io.calls fd) io

  -- The size -1 is the error; the other sizes are those of the list.
  unfoldable pub tnfs_event_wait : ℕ → Io → Result (List ℕ) × Io
  tnfs_event_wait timeout_sec io =
      let ms = timeout_sec * 1000 in
      let r = os.epoll_wait io.calls ms in (r, did (Call.epoll_wait ms) r io)

unfoldable pub tnfs_event_is_active : List ℕ → ℕ → Bool
tnfs_event_is_active [] fd = false
tnfs_event_is_active (f ∷ fs) fd = f == fd || tnfs_event_is_active fs fd

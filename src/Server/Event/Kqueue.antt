-- ===== src/Server/Event/Kqueue.antt =====
-- src/event_kqueue.c: the descriptors that the daemon waits on, on a system with `kqueue`. The queue
-- is the only one, and is left out.
use tnfsd.Base.{ℕ, Bool, List}
use tnfsd.Os.{Os, Call, Result}
use tnfsd.Tnfs.{Io, did}
use tnfsd.Server.Event.{succeeded}

abbrev event_max_fds : ℕ
event_max_fds = 4096

module _ (os : Os) where
  unfoldable pub kqueue_register : ℕ → Io → Bool × Io
  kqueue_register fd io =
      let r = os.kevent_add io.calls fd in (succeeded r, did (Call.kevent_add fd) r io)

  unfoldable pub kqueue_unregister : ℕ → Io → Io
  kqueue_unregister fd io = did (Call.kevent_delete fd) (os.kevent_delete io.calls fd) io

  -- The size -1 is the error; the other sizes are those of the list.
  unfoldable pub kqueue_wait : ℕ → Io → Result (List ℕ) × Io
  kqueue_wait timeout_sec io =
      let r = os.kevent_wait io.calls event_max_fds timeout_sec in
      (r, did (Call.kevent_wait event_max_fds timeout_sec) r io)

-- ===== src/Server/Event/Select.antt =====
-- src/event_select.c: the descriptors that the daemon waits on, on a system with `select`, in a table
-- of 1024 slots. The text that is logged is left out.
pub mod Registered
pub mod Waiting
use tnfsd.Base.{
  ℕ, Bool, true, false, not, ◌&&◌, ◌==◌, leb, if◌then◌else◌, List, [], ◌∷◌, ◌++◌, ◌-◌, map, take,
  length, replicate,
}
use tnfsd.Os.{Os, Call, Result, ok, err, Selected}
use tnfsd.Tnfs.{Io, did}

abbrev pub event_max_fds : ℕ
event_max_fds = 1024

abbrev pub fd_setsize : ℕ
fd_setsize = 1024

-- `event_fd_list`; a slot that holds 0 is free.
abbrev pub EventFdList : Type 0
EventFdList = List ℕ

abbrev pub select_init : EventFdList
select_init = replicate event_max_fds 0

-- The loop takes the first free slot.
unfoldable pub select_register : ℕ → EventFdList → Bool × EventFdList
select_register fd [] = (false, [])
select_register fd (e ∷ es) =
    let rest = select_register fd es in
    if e == 0
    then (if leb fd_setsize fd then (false, e ∷ es) else (true, fd ∷ es))
    else (rest.0, e ∷ rest.1)

unfoldable pub select_unregister : ℕ → EventFdList → EventFdList
select_unregister fd [] = []
select_unregister fd (e ∷ es) = (if e == fd then 0 else e) ∷ select_unregister fd es

-- The descriptors that are put into the set, and those that are ready in it.
unfoldable pub select_set : EventFdList → List ℕ
select_set [] = []
select_set (e ∷ es) = if not (e == 0) then e ∷ select_set es else select_set es

unfoldable pub ready_fds : (ℕ → Bool) → EventFdList → List ℕ
ready_fds readable [] = []
ready_fds readable (e ∷ es) =
    if not (e == 0) && readable e then e ∷ ready_fds readable es else ready_fds readable es

-- `wait_result.fds`, which is cleared before, up to `wait_result.size`; what stands behind the
-- array's end is left out.
abbrev pub wait_result : Selected → EventFdList → List ℕ
wait_result sel es =
    let fds = ready_fds sel.readable es in
    take sel.count (fds ++ replicate (event_max_fds - length fds) 0)

abbrev pub waited : Result Selected → EventFdList → Result (List ℕ)
waited (err e) es = err e
waited (ok sel) es = ok (wait_result sel es)

module _ (os : Os) where
  unfoldable pub select_wait : ℕ → EventFdList → Io → Result (List ℕ) × Io
  unfolding select_set ready_fds
  select_wait timeout_sec es io =
      let r = os.select io.calls (select_set es) timeout_sec in
      (waited r es, did (Call.select (select_set es) timeout_sec) r io)

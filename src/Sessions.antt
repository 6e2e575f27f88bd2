-- ===== src/Sessions.antt =====
-- src/session.c: the table of sessions. A slot holds a session or nothing; a pointer to a session is
-- the index of its slot.
pub mod Mount
pub mod Replies
pub mod Table
pub mod Ids
pub mod Closing
pub mod Expiry
pub mod Change
pub mod Recycling
pub mod Limit
pub mod Sound
pub mod Resetting
use tnfsd.Base.{
  ℕ, zero, suc, Bool, true, false, not, ◌&&◌, ◌||◌, Option, none, some, List, [], ◌∷◌, ◌+◌, ◌-◌,
  ◌%◌, ◌^◌, ◌==◌, ltb, leb, if◌then◌else◌, set, replicate,
}
use tnfsd.Os.{Os, Call, ok, err}
use tnfsd.Tnfs.{
  Session, DirHandle, Io, did, asked, max_sessions, max_sessions_per_ip, session_timeout,
}
use tnfsd.Dir.{close_stream, is_null}

abbrev pub Slots : Type 0
Slots = List (Option Session)

-- `slist`, and the rest of the process's state
pub record Server : Type 0 where
  pub slist : Slots
  pub io : Io
  pub open io use *

-- `tnfs_init`
unfoldable pub tnfs_init : Slots
unfolding max_sessions
tnfs_init = replicate max_sessions none

module _ (os : Os) where
  unfoldable pub close_fds : List ℕ → Io → Io
  close_fds [] io = io
  close_fds (fd ∷ rest) io =
      close_fds rest
        (if fd == 0 then io else did (Call.close_file fd) (os.close_file io.calls fd) io)

  -- `_tnfs_free_dir_handle` of the handles that are loaded, open or hold a stream
  unfoldable pub close_dhandles : List DirHandle → Io → Io
  unfolding close_stream
  close_dhandles [] io = io
  close_dhandles (dh ∷ rest) io = close_dhandles rest (
      if dh.loaded || (dh.is_open || not (is_null dh.handle))
      then close_stream dh.handle io
      else io)

  -- `tnfs_freesession`, without the slot, which its callers empty
  unfoldable pub close_session : Session → Io → Io
  unfolding close_fds close_dhandles
  close_session s io = close_dhandles s.dhandles (close_fds s.fd io)

  unfoldable pub tnfs_freesession : Session → ℕ → Server → Server
  unfolding close_session
  tnfs_freesession s i srv = record { slist = set srv.slist i none; io = close_session s srv.io }

-- `tnfs_findsession_sid`, from the slot `i` on
unfoldable pub find_sid : ℕ → Slots → ℕ → Option (ℕ × Session)
find_sid sid [] i = none
find_sid sid (none ∷ rest) i = find_sid sid rest (suc i)
find_sid sid (some s ∷ rest) i = if s.sid == sid then some (i, s) else find_sid sid rest (suc i)

unfoldable pub tnfs_findsession_sid : ℕ → Slots → Option (ℕ × Session)
unfolding find_sid
tnfs_findsession_sid sid slots = find_sid sid slots 0

-- A `time_t` difference is signed: a contact in the future is none too old.
unfoldable pub tnfs_session_expired : Session → ℕ → Bool
tnfs_session_expired s currenttime =
    ltb 0 session_timeout && (leb (s.last_contact + session_timeout) currenttime && s.cli_fd == 0)

-- What the loop of `tnfs_findsession_ipaddr` does at a session.
pub data Visit : Type 0 where
  expired full match other : Visit

abbrev pub is_some : Option ℕ → Bool
is_some none = false
is_some (some i) = true

-- `count` sessions of the address have been seen; `first` is the slot of the first of them.
unfoldable pub visit : ℕ → ℕ → ℕ → Option ℕ → Session → Visit
unfolding tnfs_session_expired
visit ip now count first s =
    if tnfs_session_expired s now
    then expired
    else if not (s.ipaddr == ip)
    then other
    else if leb max_sessions_per_ip (count + 1) && is_some first
    then full
    else match

-- The slots and calls after the loop, and the slot that it returns.
pub record Scan : Type 0 where
  pub slots : Slots
  pub io : Io
  pub found : Option ℕ

abbrev pub keep_slot : Option Session → Scan → Scan
keep_slot o r = record r { slots = o ∷ r.slots }

module _ (os : Os) (ip now : ℕ) where
  -- Expired sessions are freed on the way, as far as the loop gets.
  unfoldable pub find_ip : ℕ → Option ℕ → ℕ → Slots → Io → Scan
  find_ip count first i [] io = record { slots = []; io = io; found = none }
  find_ip count first i (none ∷ rest) io = keep_slot none (find_ip count first (suc i) rest io)
  find_ip count first i (some s ∷ rest) io = elim (visit ip now count first s) [
    | expired ↦ keep_slot none (find_ip count first (suc i) rest (close_session os s io))
    | other ↦ keep_slot (some s) (find_ip count first (suc i) rest io)
    | full ↦ record { slots = some s ∷ rest; io = io; found = first }
    | match ↦
        keep_slot (some s)
          (find_ip (suc count) (if count == 0 then some i else first) (suc i) rest io)
  ]

unfoldable pub tnfs_findsession_ipaddr : Os → ℕ → Server → Scan
unfolding find_ip
tnfs_findsession_ipaddr os ip srv =
    find_ip os ip (os.time srv.calls) 0 none 0 srv.slist (asked Call.time srv.io)

-- `tnfs_expire_sessions`, the loop
unfoldable pub expire_slots : Os → ℕ → Slots → Io → Slots × Io
unfolding tnfs_session_expired close_session
expire_slots os now [] io = ([], io)
expire_slots os now (none ∷ rest) io =
    let (slots, io') = expire_slots os now rest io in (none ∷ slots, io')
expire_slots os now (some s ∷ rest) io =
    let gone = tnfs_session_expired s now in
    let (slots, io') = expire_slots os now rest (if gone then close_session os s io else io) in
    ((if gone then none else some s) ∷ slots, io')

unfoldable pub tnfs_expire_sessions : Os → Server → Server
unfolding expire_slots
tnfs_expire_sessions os srv =
    let (slots, io) = expire_slots os (os.time srv.calls) srv.slist (asked Call.time srv.io) in
    record { slist = slots; io = io }

unfoldable pub tnfs_reset_cli_fd_in_sessions : ℕ → Slots → Slots
tnfs_reset_cli_fd_in_sessions cli_fd [] = []
tnfs_reset_cli_fd_in_sessions cli_fd (none ∷ rest) =
    none ∷ tnfs_reset_cli_fd_in_sessions cli_fd rest
tnfs_reset_cli_fd_in_sessions cli_fd (some s ∷ rest) =
    some (if s.cli_fd == cli_fd then record s { cli_fd = 0 } else s)
    ∷ tnfs_reset_cli_fd_in_sessions cli_fd rest

-- `tnfs_newsid`: up to `tries` draws, and 0 if each of them is taken
unfoldable pub newsid_tries : Os → ℕ → Slots → Io → ℕ × Io
unfolding tnfs_findsession_sid
newsid_tries os zero slots io = (0, io)
newsid_tries os (suc tries) slots io =
    let newsid = os.rand io.calls % 2 ^ 16 in
    elim (tnfs_findsession_sid newsid slots) [
      | none ↦ (newsid, asked Call.rand io)
      | some taken ↦ newsid_tries os tries slots (asked Call.rand io)
    ]

unfoldable pub tnfs_newsid : Os → Slots → Io → ℕ × Io
unfolding newsid_tries
tnfs_newsid os slots io = newsid_tries os 255 slots io

-- how many slots are in use; the `uint16_t` of the source holds MAX_SESSIONS
unfoldable pub tnfs_session_count : Slots → ℕ
tnfs_session_count [] = 0
tnfs_session_count (none ∷ rest) = tnfs_session_count rest
tnfs_session_count (some s ∷ rest) = suc (tnfs_session_count rest)

unfoldable pub tnfs_free_all_sessions : Os → Slots → Io → Slots × Io
unfolding close_session
tnfs_free_all_sessions os [] io = ([], io)
tnfs_free_all_sessions os (none ∷ rest) io =
    let (slots, io') = tnfs_free_all_sessions os rest io in (none ∷ slots, io')
tnfs_free_all_sessions os (some s ∷ rest) io =
    let (slots, io') = tnfs_free_all_sessions os rest (close_session os s io) in (none ∷ slots, io')

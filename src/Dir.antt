-- ===== src/Dir.antt =====
-- src/directory.c, src/traverse.c: the directory handles of a session and the commands on
-- directories. This module has the handles; its children have the loading of a directory, and the
-- commands.
pub mod Pattern
pub mod Load
pub mod Commands
pub mod Listing
pub mod Paging
pub mod Replies
pub mod Keeps
pub mod Calls
use tnfsd.Base.{
  ℕ, zero, suc, Bool, true, false, not, ◌&&◌, ◌||◌, Option, none, some, List, [], ◌∷◌, ◌+◌, ◌==◌,
  ltb, if◌then◌else◌, bytes_eq, set,
}
use tnfsd.Os.{Os, Call}
use tnfsd.Tnfs.{DirHandle, Io, asked, max_tnfspath}
use tnfsd.Strl.{strlcpy}

abbrev pub dir_handle_timeout : ℕ
dir_handle_timeout = 300

abbrev pub is_null {ℓ} : {A : Type ℓ} → Option A → Bool
is_null none = true
is_null (some a) = false

-- `if (handle != NULL) closedir (handle);`
unfoldable pub close_stream : Option ℕ → Io → Io
close_stream none io = io
close_stream (some d) io = asked (Call.closedir d) io

-- `_tnfs_free_dir_handle`
unfoldable pub free_dir_handle : DirHandle → DirHandle
free_dir_handle dh = record dh {
  handle = none;
  path = [];
  pattern = [];
  entry_list = [];
  current_entry = [];
  entry_count = 0;
  is_open = false;
  loaded = false;
  ignore_patterns = [];
}

-- `_tnfs_init_dhandle`, but for the stream that it closes
unfoldable pub init_dhandle : DirHandle → List ℕ → ℕ → ℕ → Option (List ℕ) → ℕ → DirHandle
init_dhandle dh path diropt sortopt pattern now = record dh {
  handle = none;
  path = strlcpy path max_tnfspath;
  pattern = (elim pattern [ none ↦ [] | some p ↦ strlcpy p max_tnfspath ]);
  diropt = diropt;
  sortopt = sortopt;
  open_at = now;
  ignore_patterns = [];
}

-- "remove old handles": those that are loaded, closed and too old
unfoldable pub is_stale : ℕ → DirHandle → Bool
is_stale now dh =
    if dh.is_open then false else dh.loaded && ltb (dh.open_at + dir_handle_timeout) now

unfoldable pub drop_stale : ℕ → List DirHandle → List DirHandle
unfolding is_stale free_dir_handle
drop_stale now [] = []
drop_stale now (dh ∷ rest) =
    (if is_stale now dh then free_dir_handle dh else dh) ∷ drop_stale now rest

unfoldable pub close_stale : ℕ → List DirHandle → Io → Io
unfolding is_stale close_stream
close_stale now [] io = io
close_stale now (dh ∷ rest) io =
    close_stale now rest (if is_stale now dh then close_stream dh.handle io else io)

-- A stored pattern against the one asked for. Where the request has none and the handle has one, the
-- source hands NULL to `strncmp`, which C leaves undefined; here the patterns differ.
unfoldable pub same_pattern : List ℕ → Option (List ℕ) → Bool
unfolding bytes_eq
same_pattern stored none = bytes_eq stored []
same_pattern stored (some p) = bytes_eq stored p

unfoldable pub is_reusable : List ℕ → ℕ → ℕ → Option (List ℕ) → DirHandle → Bool
unfolding same_pattern bytes_eq
is_reusable path diropt sortopt pattern dh =
    dh.loaded
    && (bytes_eq dh.path path
        && (dh.diropt == diropt && (dh.sortopt == sortopt && same_pattern dh.pattern pattern)))

-- the index of the first handle, from `i` on, that passes the test
unfoldable pub find_handle : (DirHandle → Bool) → List DirHandle → ℕ → Option (ℕ × DirHandle)
find_handle test [] i = none
find_handle test (dh ∷ rest) i = if test dh then some (i, dh) else find_handle test rest (suc i)

-- What `_tnfs_find_free_dir_handle` returns and leaves behind.
pub record Found : Type 0 where
  pub slot : Option ℕ
  pub handles : List DirHandle
  pub io : Io

module _ (os : Os) (path : List ℕ) (diropt sortopt : ℕ) (pattern : Option (List ℕ)) where
  -- Attempts 2 and 3: an unused handle, or a closed one, whose directory is dropped.
  unfoldable pub claim : DirHandle → ℕ → List DirHandle → Io → Found
  unfolding close_stream free_dir_handle init_dhandle
  claim dh i handles io =
      let io1 = if dh.loaded then close_stream dh.handle io else io in
      let freed = if dh.loaded then free_dir_handle dh else dh in
      let now = os.time io1.calls in
      record {
        slot = some i;
        handles = set handles i (init_dhandle freed path diropt sortopt pattern now);
        io = close_stream freed.handle (asked Call.time io1);
      }

  unfoldable pub find_unused : List DirHandle → Io → Found
  unfolding claim find_handle
  find_unused handles io = elim (find_handle (λ dh. not (dh.is_open || dh.loaded)) handles 0) [
    | some (i, dh) ↦ claim dh i handles io
    | none ↦ elim (find_handle (λ dh. not dh.is_open) handles 0) [
      | some (i, dh) ↦ claim dh i handles io
      | none ↦ record { slot = none; handles = handles; io = io }
    ]
  ]

  unfoldable pub find_free_dir_handle : Bool → List DirHandle → Io → Found
  unfolding find_unused find_handle is_reusable drop_stale close_stale
  find_free_dir_handle reuse handles0 io0 =
      let now = os.time io0.calls in
      let handles = drop_stale now handles0 in
      let io = close_stale now handles0 (asked Call.time io0) in
      if reuse
      then elim (find_handle (is_reusable path diropt sortopt pattern) handles 0) [
        | some (i, dh) ↦ record {
          slot = some i;
          handles = set handles i (record dh { current_entry = dh.entry_list });
          io = io;
        }
        | none ↦ find_unused handles io
      ]
      else find_unused handles io

-- ===== src/Dir/Load.antt =====
-- src/directory.c, `_load_directory`; src/traverse.c, `_traverse_directory`;
-- src/fileinfo.c: the entries of a directory, chosen and put in order as an OPENDIRX asks.
use tnfsd.Dir.Pattern.{pattern_match}
use tnfsd.Base.{
  ℕ, Bool, true, false, not, ◌&&◌, ◌||◌, Option, none, some, List, [], ◌∷◌, ◌++◌, ◌+◌, ◌-◌, ◌%◌,
  ◌^◌, ◌==◌, ltb, leb, if◌then◌else◌, bit, length, take, drop, get_or,
}
use tnfsd.Os.{Os, Call, ok, err, Errno, Stat}
use tnfsd.Tnfs.{DirEntry, DirHandle, Io, did, asked, max_tnfspath, max_filename_len}
use tnfsd.Strl.{strlcpy}
use tnfsd.DirList.{dirlist_push, dirlist_concat, dirlist_sort}
use tnfsd.Path.{snprintf}

-- The lines of an .ignore file, without the space around them.
unfoldable pub trim_start : List ℕ → List ℕ
trim_start [] = []
trim_start (c ∷ cs) = if c == 32 || c == 9 then trim_start cs else c ∷ cs

unfoldable pub ends_line : ℕ → Bool
ends_line c = c == 10 || c == 13 || c == 32 || c == 9

unfoldable pub trim_end : List ℕ → List ℕ
unfolding ends_line
trim_end [] = []
trim_end (c ∷ cs) = elim (trim_end cs) [
  | [] ↦ if ends_line c then [] else c ∷ []
  | d ∷ ds ↦ c ∷ d ∷ ds
]

-- Empty lines and comments are left out.
unfoldable pub keep_pattern : List ℕ → List (List ℕ) → List (List ℕ)
keep_pattern [] l = l
keep_pattern (c ∷ cs) l = if c == b'#' then l else (c ∷ cs) ∷ l

unfoldable pub ignore_of_lines : List (List ℕ) → List (List ℕ)
unfolding trim_start trim_end keep_pattern
ignore_of_lines [] = []
ignore_of_lines (line ∷ rest) = keep_pattern (trim_end (trim_start line)) (ignore_of_lines rest)

abbrev pub ignore_path : List ℕ → List ℕ
ignore_path path =
    snprintf 272 (path ++ (b'/' ∷ b'.' ∷ b'i' ∷ b'g' ∷ b'n' ∷ b'o' ∷ b'r' ∷ b'e' ∷ []))

-- `struct fileinfo`; the flags are 1 for a directory and 2 for a hidden file
pub record FileInfo : Type 0 where
  pub flags : ℕ
  pub size : ℕ
  pub m_time : ℕ
  pub c_time : ℕ

-- what follows the last slash; `best` is the rest of the path behind the last slash so far
unfoldable pub base_name : List ℕ → List ℕ → List ℕ
base_name best [] = best
base_name best (c ∷ cs) = base_name (if c == b'/' then cs else best) cs

unfoldable pub fileinfo_of : List ℕ → Stat → FileInfo
unfolding base_name
fileinfo_of path st = record {
  flags =
      (if st.is_dir then 1 else 0) + (if get_or (base_name path path) 0 0 == b'.' then 2 else 0);
  size = st.st_size % 2 ^ 32;
  m_time = st.st_mtime % 2 ^ 32;
  c_time = st.st_ctime % 2 ^ 32;
}

-- the two lists that the entries are put in, and their number
pub record Entries : Type 0 where
  pub dirs : List DirEntry
  pub files : List DirEntry
  pub count : ℕ

abbrev pub no_entries : Entries
no_entries = record { dirs = []; files = []; count = 0 }

-- Is an entry left out, by the options on hidden and special files and on folders?
unfoldable pub is_unwanted : ℕ → FileInfo → Bool
is_unwanted diropts fi =
    (not (bit diropts 1) && bit fi.flags 1)
    || ((not (bit diropts 2) && bit fi.flags 2) || (bit diropts 5 && bit fi.flags 0))

-- Only a directory's flags are kept.
unfoldable pub entry_of : List ℕ → FileInfo → DirEntry
entry_of name fi = record {
  flags = if bit fi.flags 0 then fi.flags else 0;
  size = fi.size;
  mtime = fi.m_time;
  ctime = fi.c_time;
  entrypath = strlcpy name max_filename_len;
}

unfoldable pub add_entry : ℕ → List ℕ → FileInfo → Entries → Entries
unfolding entry_of dirlist_push
add_entry diropts name fi l =
    let counted = (l.count + 1) % 2 ^ 16 in
    if bit fi.flags 0 && not (bit diropts 0)
    then record l { dirs = dirlist_push l.dirs (entry_of name fi); count = counted }
    else record l { files = dirlist_push l.files (entry_of name fi); count = counted }

-- The lists sorted, each by itself, and put together.
unfoldable pub arrange : ℕ → Entries → List DirEntry
unfolding dirlist_sort dirlist_concat
arrange sortopts l =
    if bit sortopts 0
    then dirlist_concat l.dirs l.files
    else dirlist_concat (dirlist_sort sortopts l.dirs) (dirlist_sort sortopts l.files)

unfoldable pub is_full : ℕ → Entries → Bool
is_full maxresults l = ltb 0 maxresults && leb maxresults l.count

-- What a loader returns: an error for a result other than 0, and the handle.
pub record Loaded : Type 0 where
  pub error : Option Errno
  pub dir : DirHandle
  pub io : Io

unfoldable pub finish_load : DirHandle → ℕ → Entries → DirHandle
unfolding arrange
finish_load dh sortopts l = record dh {
  entry_list = arrange sortopts l;
  entry_count = l.count;
  current_entry = arrange sortopts l;
}

module _ (os : Os) where
  unfoldable pub load_ignore : List ℕ → Io → List (List ℕ) × Io
  unfolding ignore_of_lines
  load_ignore path io = (
    elim (os.text_lines io.calls (ignore_path path)) [
      | none ↦ []
      | some lines ↦ ignore_of_lines lines
    ],
    asked (Call.fopen (ignore_path path)) io,
  )

  -- Does one of the ignore patterns match?
  unfoldable pub is_ignored : List ℕ → List (List ℕ) → Bool
  is_ignored name [] = false
  is_ignored name (p ∷ ps) = os.gitignore_glob_match name p || is_ignored name ps

  module _ (path : List ℕ) (ignore : List (List ℕ)) (diropts maxresults : ℕ)
      (pattern : Option (List ℕ)) where
    -- One entry of `_load_directory`'s loop, its file looked at.
    unfoldable pub take_entry : List ℕ → FileInfo → Entries → Entries
    unfolding pattern_match is_unwanted add_entry
    take_entry name fi l =
        let fits : Bool = elim pattern [ none ↦ true | some p ↦ pattern_match name p ] in
        if (bit diropts 3 || not (bit fi.flags 0)) && not fits
        then l
        else if is_unwanted diropts fi
        then l
        else add_entry diropts name fi l

    unfoldable pub load_entry : List ℕ → Entries → Io → Entries × Io
    unfolding take_entry fileinfo_of is_ignored
    load_entry name l io =
        let statpath = strlcpy (snprintf 516 (path ++ (b'/' ∷ name))) max_tnfspath in
        let r = os.stat io.calls statpath in
        if is_ignored name ignore then (l, io) else (
          elim r [ ok st ↦ take_entry name (fileinfo_of statpath st) l | err e ↦ l ],
          did (Call.stat statpath) r io,
        )

    -- The loop ends early when an entry that was added makes the list full.
    unfoldable pub load_entries : ℕ → List (List ℕ) → Entries → Io → Entries × Io
    unfolding load_entry is_full
    load_entries d [] l io = (l, asked (Call.readdir d) io)
    load_entries d (name ∷ rest) l io =
        let (l', io') = load_entry name l (asked (Call.readdir d) io) in
        elim (not (l'.count == l.count) && is_full maxresults l') [
          | true ↦ (l', io')
          | false ↦ load_entries d rest l' io'
        ]

    -- One call of `_nftwfunc`; true if it returns 1.
    unfoldable pub visit : List ℕ → Entries → Io → Bool × Entries × Io
    unfolding is_unwanted add_entry fileinfo_of is_ignored is_full
    visit fullpath l io =
        let with_slash = drop (length path) fullpath in
        let filename = drop 1 with_slash in
        let r = os.stat io.calls fullpath in
        let io1 = did (Call.stat fullpath) r io in
        let fits : Bool = elim pattern [
          | none ↦ true
          | some p ↦ os.gitignore_glob_match with_slash p
        ] in
        if leb (length fullpath) (length path + 1) then (false, l, io) else elim r [
          | err e ↦ (false, l, io1)
          | ok st ↦
              let fi = fileinfo_of fullpath st in
              let l' = add_entry diropts filename fi l in
              if not fits
                || ((is_ignored with_slash ignore || is_ignored filename ignore)
                    || is_unwanted diropts fi)
              then (false, l, io1)
              else (is_full maxresults l', l', io1)
        ]

    unfoldable pub visit_all : List (List ℕ) → Entries → Io → Entries × Io
    unfolding visit
    visit_all [] l io = (l, io)
    visit_all (p ∷ rest) l io =
        let (stop, l', io') = visit p l io in
        elim stop [ true ↦ (l', io') | false ↦ visit_all rest l' io' ]

  -- `_load_directory`
  unfoldable pub load_directory : DirHandle → ℕ → ℕ → ℕ → Option (List ℕ) → Io → Loaded
  unfolding load_ignore load_entries finish_load
  load_directory dh diropts sortopts maxresults pattern io =
      let emptied = record dh { entry_list = []; current_entry = []; entry_count = 0 } in
      let r = os.opendir io.calls dh.path in
      let io1 = did (Call.opendir dh.path) r io in
      elim r [
        | err e ↦ record { error = some e; dir = record emptied { handle = none }; io = io1 }
        | ok d ↦
            let (ignore, io2) = load_ignore dh.path io1 in
            let names = os.listing io2.calls d in
            let (l, io3) =
              load_entries dh.path ignore diropts maxresults pattern d names no_entries io2 in
            record {
              error = none;
              dir =
                  finish_load (record emptied { handle = some d; ignore_patterns = ignore })
                    sortopts l;
              io = io3;
            }
      ]

  -- the path without its last slash
  unfoldable pub strip_slash : List ℕ → List ℕ
  strip_slash p =
      if ltb 0 (length p) && get_or p (length p - 1) 0 == b'/' then take (length p - 1) p else p

  -- `_traverse_directory`. On an error the source leaves `entry_list` as it was, though it is freed.
  unfoldable pub traverse_directory : DirHandle → ℕ → ℕ → ℕ → Option (List ℕ) → Io → Loaded
  unfolding load_ignore visit_all finish_load strip_slash
  traverse_directory dh diropts sortopts maxresults pattern io =
      let path = strip_slash dh.path in
      let (ignore, io1) = load_ignore path io in
      let r = os.nftw io1.calls path in
      let io2 = did (Call.nftw path) r io1 in
      elim r [
        | err e ↦ record { error = some e; dir = record dh { entry_count = 0 }; io = io2 }
        | ok paths ↦
            let (l, io3) = visit_all path ignore diropts maxresults pattern paths no_entries io2 in
            record { error = none; dir = finish_load dh sortopts l; io = io3 }
      ]

-- ===== src/Dir/Commands.antt =====
-- src/directory.c: OPENDIR, READDIR, CLOSEDIR, MKDIR, RMDIR, TELLDIR, SEEKDIR and OPENDIRX.
use tnfsd.Base.{
  ℕ, Bool, true, false, not, ◌&&◌, ◌||◌, Option, none, some, List, [], ◌∷◌, ◌++◌, ◌+◌, ◌%◌, ◌^◌,
  ◌==◌, ltb, leb, if◌then◌else◌, bit, length, drop, get_or, set,
}
use tnfsd.Os.{Os, Call, ok, err}
use tnfsd.Tnfs.{
  Config, Session, DirHandle, Header, Buf, Io, Ctx, byte_at, last_byte, string_at, does, asks,
  fresh_dhandle, max_dhnd_per_conn, max_tnfspath, max_filename_len,
}
use tnfsd.Strl.{strlcpy}
use tnfsd.Endian.{tnfs16uint, tnfs32uint, uint16tnfs, uint32tnfs}
use tnfsd.Errortable.{tnfs_error, tnfs_success, tnfs_einval, tnfs_emfile, tnfs_ebadf, tnfs_eof}
use tnfsd.Path.{snprintf, normalize_path, validate_path}
use tnfsd.Send.{reply}
use tnfsd.DirList.{dirlist_get_node_at_index, dirlist_get_index_for_node}
use tnfsd.File.Names.{on_path, outcome}
use tnfsd.Dir.{find_free_dir_handle, close_stream, is_null}
use tnfsd.Dir.Load.{Loaded, load_directory, traverse_directory}

-- `s->dhandles[i]`
abbrev pub dhandle_at : Session → ℕ → DirHandle
dhandle_at s i = get_or s.dhandles i fresh_dhandle

abbrev pub put_dhandle : ℕ → DirHandle → Ctx → Ctx
put_dhandle i dh x = record x { sess = record (x.sess) { dhandles = set (x.sess).dhandles i dh } }

abbrev is_empty {ℓ} : {A : Type ℓ} → List A → Bool
is_empty [] = true
is_empty (a ∷ l) = false

-- The handle of a SEEKDIR or TELLDIR of `datasz` bytes is not one that is open on a directory.
unfoldable pub bad_position : ℕ → Buf → Session → Bool
bad_position datasz b s =
    not (b.bufsz == datasz)
    || (leb max_dhnd_per_conn (byte_at b 0)
        || (not (dhandle_at s (byte_at b 0)).is_open
            || (is_empty (dhandle_at s (byte_at b 0)).entry_list
                && is_null (dhandle_at s (byte_at b 0)).handle)))

-- `%s` of the session's root, which glibc prints so if it is NULL
unfoldable pub root_text : Session → List ℕ
root_text s = elim s.root [ none ↦ b'(' ∷ b'n' ∷ b'u' ∷ b'l' ∷ b'l' ∷ b')' ∷ [] | some r ↦ r ]

module _ (os : Os) (conf : Config) (hdr : Header) where
  -- The path of an OPENDIR or OPENDIRX: one that lies outside the root is replaced by the root.
  unfoldable pub requested_path : List ℕ → Ctx → List ℕ × Ctx
  unfolding root_text
  requested_path dirpath x =
      let full =
        snprintf max_tnfspath (conf.root ++ (b'/' ∷ (root_text x.sess ++ (b'/' ∷ dirpath)))) in
      let path = normalize_path full max_tnfspath in
      let (inside, io) = validate_path os conf path x.io in
      (if inside then path else conf.root, record x { io = io })

  unfoldable pub open_stream : ℕ → Ctx → Ctx
  open_stream i x =
      let dh = dhandle_at x.sess i in
      let r = os.opendir x.calls dh.path in
      let y = does (Call.opendir dh.path) r x in
      elim r [
        | err e ↦ reply os hdr (tnfs_error y.errno) [] y
        | ok d ↦
            reply os hdr tnfs_success (i ∷ [])
              (put_dhandle i (record dh { handle = some d; is_open = true }) y)
      ]

  unfoldable pub opendir_path : List ℕ → Ctx → Ctx
  unfolding requested_path open_stream
  opendir_path dirpath x =
      let (path, y) = requested_path dirpath x in
      let f = find_free_dir_handle os path 0 0 none false (y.sess).dhandles y.io in
      let z : Ctx = record { io = f.io; sess = record (y.sess) { dhandles = f.handles } } in
      elim f.slot [ none ↦ reply os hdr tnfs_emfile [] z | some i ↦ open_stream i z ]

  unfoldable pub tnfs_opendir : Buf → Ctx → Ctx
  unfolding opendir_path
  tnfs_opendir b x =
      if not (last_byte b == 0)
      then reply os hdr tnfs_einval [] x
      else opendir_path (string_at b 0) x

  -- READDIR of a handle whose stream is `d`
  unfoldable pub read_stream : ℕ → Ctx → Ctx
  read_stream d x =
      let y = asks (Call.readdir d) x in
      elim (os.readdir x.calls d) [
        | none ↦ reply os hdr tnfs_eof [] y
        | some name ↦ reply os hdr tnfs_success (strlcpy name max_filename_len ++ (0 ∷ [])) y
      ]

  unfoldable pub tnfs_readdir : Buf → Ctx → Ctx
  unfolding read_stream
  tnfs_readdir b x =
      if not (b.bufsz == 1)
        || (leb max_dhnd_per_conn (byte_at b 0) || not (dhandle_at x.sess (byte_at b 0)).is_open)
      then reply os hdr tnfs_ebadf [] x
      else elim (dhandle_at x.sess (byte_at b 0)).handle [
        | none ↦ reply os hdr tnfs_ebadf [] x
        | some d ↦ read_stream d x
      ]

  -- A plain handle gives up its stream; a loaded one keeps its entries, to be used again.
  unfoldable pub tnfs_closedir : Buf → Ctx → Ctx
  unfolding close_stream
  tnfs_closedir b x =
      let i = byte_at b 0 in
      let dh = dhandle_at x.sess i in
      let closed = record dh { is_open = false } in
      if not (b.bufsz == 1) || (leb max_dhnd_per_conn i || not dh.is_open)
      then reply os hdr tnfs_ebadf [] x
      else if dh.loaded
      then reply os hdr tnfs_success [] (put_dhandle i closed x)
      else reply os hdr tnfs_success [] (
          put_dhandle i (record closed { handle = none })
            (record x { io = close_stream dh.handle x.io }))

  unfoldable pub mkdir_path : List ℕ → Ctx → Ctx
  unfolding outcome
  mkdir_path path x =
      let r = os.mkdir x.calls path 0o755 in
      outcome os conf hdr r (does (Call.mkdir path 0o755) r x)

  unfoldable pub tnfs_mkdir : Buf → Ctx → Ctx
  unfolding on_path mkdir_path
  tnfs_mkdir b x = on_path os conf hdr mkdir_path b x

  unfoldable pub rmdir_path : List ℕ → Ctx → Ctx
  unfolding outcome
  rmdir_path path x =
      let r = os.rmdir x.calls path in outcome os conf hdr r (does (Call.rmdir path) r x)

  unfoldable pub tnfs_rmdir : Buf → Ctx → Ctx
  unfolding on_path rmdir_path
  tnfs_rmdir b x = on_path os conf hdr rmdir_path b x

  -- `seekdir` on the stream `handle`
  unfoldable pub seek_stream : Option ℕ → ℕ → Ctx → Ctx
  seek_stream none pos x = x
  seek_stream (some d) pos x = asks (Call.seekdir d pos) x

  unfoldable pub tnfs_seekdir : Buf → Ctx → Ctx
  unfolding seek_stream bad_position
  tnfs_seekdir b x =
      let i = byte_at b 0 in
      let dh = dhandle_at x.sess i in
      let pos = tnfs32uint (drop 1 b.bytes) in
      if bad_position 5 b x.sess
      then reply os hdr tnfs_ebadf [] x
      else if is_empty dh.entry_list
      then reply os hdr tnfs_success [] (seek_stream dh.handle pos x)
      else reply os hdr tnfs_success [] (
          put_dhandle i (record dh { current_entry = dirlist_get_node_at_index dh.entry_list pos })
            x)

  unfoldable pub tell_stream : Option ℕ → Ctx → Ctx
  tell_stream none x = reply os hdr tnfs_success (uint32tnfs 0) x
  tell_stream (some d) x =
      reply os hdr tnfs_success (uint32tnfs (os.telldir x.calls d % 2 ^ 32))
        (asks (Call.telldir d) x)

  unfoldable pub tnfs_telldir : Buf → Ctx → Ctx
  unfolding tell_stream bad_position
  tnfs_telldir b x =
      let dh = dhandle_at x.sess (byte_at b 0) in
      if bad_position 1 b x.sess
      then reply os hdr tnfs_ebadf [] x
      else if is_empty dh.entry_list
      then tell_stream dh.handle x
      else reply os hdr tnfs_success
          (uint32tnfs (dirlist_get_index_for_node dh.entry_list dh.current_entry)) x

  -- The loader that an OPENDIRX calls; a loaded directory that is found again is not loaded anew.
  unfoldable pub load_slot : DirHandle → ℕ → ℕ → ℕ → Option (List ℕ) → Io → Loaded
  load_slot dh diropts sortopts maxresults pattern io =
      if bit diropts 4
      then (if dh.loaded
          then record { error = none; dir = dh; io = io }
          else traverse_directory os dh diropts sortopts maxresults pattern io)
      else load_directory os dh diropts sortopts maxresults pattern io

  unfoldable pub finish_opendirx : ℕ → Loaded → Ctx → Ctx
  finish_opendirx i l x = elim l.error [
    | some e ↦ reply os hdr (tnfs_error e) [] (put_dhandle i l.dir (record x { io = l.io }))
    | none ↦
        reply os hdr tnfs_success (i ∷ uint16tnfs (l.dir).entry_count) (
          put_dhandle i (record (l.dir) { is_open = true; loaded = true }) (record x { io = l.io }))
  ]

  unfoldable pub opendirx_path : Buf → Option (List ℕ) → List ℕ → Ctx → Ctx
  unfolding requested_path load_slot finish_opendirx
  opendirx_path b pattern dirpath x =
      let diropts = byte_at b 0 in
      let sortopts = byte_at b 1 in
      let maxresults = tnfs16uint (drop 2 b.bytes) in
      let (path, y) = requested_path dirpath x in
      let f =
        find_free_dir_handle os path diropts sortopts pattern (bit diropts 4) (y.sess).dhandles
          y.io in
      let z : Ctx = record { io = f.io; sess = record (y.sess) { dhandles = f.handles } } in
      elim f.slot [
        | none ↦ reply os hdr tnfs_emfile [] z
        | some i ↦
            finish_opendirx i
              (load_slot (dhandle_at z.sess i) diropts sortopts maxresults pattern z.io) z
      ]

  -- The request holds a pattern and a path, or, if one string fills it, the path alone; an empty
  -- pattern is none.
  unfoldable pub tnfs_opendirx : Buf → Ctx → Ctx
  unfolding opendirx_path
  tnfs_opendirx b x =
      let first = string_at b 4 in
      let alone = length first + 5 == b.bufsz in
      let pattern : Option (List ℕ) = if alone || length first == 0 then none else some first in
      let dirpath = if alone then first else string_at b (4 + (length first + 1)) in
      if ltb b.bufsz 7 || not (last_byte b == 0)
      then reply os hdr tnfs_einval [] x
      else opendirx_path b pattern dirpath x

-- ===== src/Dir/Keeps.antt =====
-- src/directory.c, src/traverse.c: no command on a directory changes whose session it is, the size of
-- its tables, or the connections; and the message that is kept fits its buffer.
use tnfsd.Base.{
  ℕ, Bool, false, not, ◌||◌, Option, none, some, Option-cases, List, [], ◌∷◌, ◌==◌, ltb, ◌≡◌, refl,
  arith, inl, inr, Bool-cases, length, length-set, bit, drop,
}
use tnfsd.Os.{Os}
use tnfsd.Tnfs.{Config, DirEntry, DirHandle, Header, Buf, last_byte, string_at, byte_at, Io, Ctx}
use tnfsd.Errortable.{tnfs_einval, tnfs_emfile}
use tnfsd.Path.{validate_path}
use tnfsd.Shape.{conns, shape, Keeps, shape-reply, Fits-reply, Keeps-reply, Keeps-trans}
use tnfsd.File.Names.{on_path}
use tnfsd.File.Keeps.{outcome-Keeps}
use tnfsd.Dir.{
  Found, close_stream, close_stale, drop_stale, claim, find_unused, find_handle,
  find_free_dir_handle,
}
use tnfsd.Dir.Load.{
  Entries, Loaded, load_ignore, load_entry, load_entries, visit, visit_all, load_directory,
  traverse_directory,
}
use tnfsd.Endian.{tnfs16uint}
use tnfsd.Dir.Commands.{
  dhandle_at, requested_path, open_stream, opendir_path, read_stream, seek_stream, tell_stream,
  load_slot, finish_opendirx, opendirx_path, mkdir_path, rmdir_path, tnfs_opendir, tnfs_readdir,
  tnfs_closedir, tnfs_mkdir, tnfs_rmdir, tnfs_seekdir, tnfs_telldir, tnfs_opendirx,
}
use tnfsd.Dir.Listing.{readdirx_from, tnfs_readdirx}

pub conns-close_stream : (h : Option ℕ) (io : Io) → conns (close_stream h io) ≡ conns io
unfolding close_stream
conns-close_stream none io = refl
conns-close_stream (some d) io = refl

conns-close_stale :
    (now : ℕ) (hs : List DirHandle) (io : Io) → conns (close_stale now hs io) ≡ conns io
unfolding close_stale
conns-close_stale now [] io = refl
conns-close_stale now (dh ∷ hs) io = grind (arith, conns-close_stale now hs, conns-close_stream)

length-drop_stale : (now : ℕ) (hs : List DirHandle) → length (drop_stale now hs) ≡ length hs
unfolding drop_stale
length-drop_stale now [] = refl
length-drop_stale now (dh ∷ hs) = ground (arith, length-drop_stale now hs)

-- A search for a handle leaves as many handles as there were, and the connections.
abbrev Seeks : List DirHandle → Io → Found → Type 0
Seeks hs io f = (length f.handles ≡ length hs) × (conns f.io ≡ conns io)

module _ (os : Os) (path : List ℕ) (diropt sortopt : ℕ) (pattern : Option (List ℕ)) where
  claim-Seeks :
      (dh : DirHandle) (i : ℕ) (hs : List DirHandle) (io : Io)
      → Seeks hs io (claim os path diropt sortopt pattern dh i hs io)
  unfolding claim
  claim-Seeks dh i hs io = (length-set hs i _, grind (arith, conns-close_stream))

  find_unused-Seeks :
      (hs : List DirHandle) (io : Io)
      → Seeks hs io (find_unused os path diropt sortopt pattern hs io)
  unfolding find_unused
  find_unused-Seeks hs io =
      elim (Option-cases (find_handle (λ dh. not (dh.is_open || dh.loaded)) hs 0)) [
        | inl fresh ↦ elim (Option-cases (find_handle (λ dh. not dh.is_open) hs 0)) [
          | inl nothing ↦ rw (fresh, nothing, find_unused) (refl, refl)
          | inr (c, e) ↦ rw (fresh, e, find_unused) (claim-Seeks c.1 c.0 hs io)
        ]
        | inr (c, e) ↦ rw (e, find_unused) (claim-Seeks c.1 c.0 hs io)
      ]

  find_free_dir_handle-Seeks :
      (reuse : Bool) (hs : List DirHandle) (io : Io)
      → Seeks hs io (find_free_dir_handle os path diropt sortopt pattern reuse hs io)
  unfolding find_free_dir_handle
  find_free_dir_handle-Seeks reuse hs io = (
    grind (arith, find_unused-Seeks, length-drop_stale, length-set),
    grind (arith, find_unused-Seeks, conns-close_stale),
  )

module _ (os : Os) where
  module _ (path : List ℕ) (ignore : List (List ℕ)) (diropts maxresults : ℕ)
      (pattern : Option (List ℕ)) where
    conns-load_entries :
        (d : ℕ) (names : List (List ℕ)) (l : Entries) (io : Io)
        → conns (load_entries os path ignore diropts maxresults pattern d names l io).1 ≡ conns io
    unfolding load_entries load_entry
    conns-load_entries d [] l io = refl
    conns-load_entries d (name ∷ names) l io = grind (arith, conns-load_entries d names)

    conns-visit :
        (p : List ℕ) (l : Entries) (io : Io)
        → conns (visit os path ignore diropts maxresults pattern p l io).2 ≡ conns io
    unfolding visit
    conns-visit p l io = grind arith

    conns-visit_all :
        (ps : List (List ℕ)) (l : Entries) (io : Io)
        → conns (visit_all os path ignore diropts maxresults pattern ps l io).1 ≡ conns io
    unfolding visit_all
    conns-visit_all [] l io = refl
    conns-visit_all (p ∷ ps) l io = grind (arith, conns-visit, conns-visit_all ps)

  conns-load_directory :
      (dh : DirHandle) (diropts sortopts maxresults : ℕ) (pattern : Option (List ℕ)) (io : Io)
      → conns (load_directory os dh diropts sortopts maxresults pattern io).io ≡ conns io
  unfolding load_directory load_ignore
  conns-load_directory dh diropts sortopts maxresults pattern io = grind (arith, conns-load_entries)

  conns-traverse_directory :
      (dh : DirHandle) (diropts sortopts maxresults : ℕ) (pattern : Option (List ℕ)) (io : Io)
      → conns (traverse_directory os dh diropts sortopts maxresults pattern io).io ≡ conns io
  unfolding traverse_directory load_ignore
  conns-traverse_directory dh diropts sortopts maxresults pattern io =
      grind (arith, conns-visit_all)

module _ (os : Os) (conf : Config) (hdr : Header) where
  requested_path-Keeps :
      (dirpath : List ℕ) (x : Ctx) → Keeps x (requested_path os conf hdr dirpath x).1
  unfolding requested_path validate_path shape
  requested_path-Keeps dirpath x = (refl, λ f. f)

  open_stream-Keeps : (i : ℕ) (x : Ctx) → Keeps x (open_stream os conf hdr i x)
  unfolding open_stream shape
  open_stream-Keeps i x =
      (grind (arith, shape-reply os hdr, length-set), λ f. grind (arith, Fits-reply os hdr))

  -- A search for a handle, and the handles put into the session.
  found-Keeps :
      (x y : Ctx) (f : Found)
      → Keeps x y
      → Seeks (y.sess).dhandles y.io f
      → Keeps x (record { io = f.io; sess = record (y.sess) { dhandles = f.handles } })
  unfolding shape
  found-Keeps x y f k s = (grind (arith, k.0, s.0, s.1), k.1)

  opendir_path-Keeps : (dirpath : List ℕ) (x : Ctx) → Keeps x (opendir_path os conf hdr dirpath x)
  unfolding opendir_path
  opendir_path-Keeps dirpath x =
      let p = requested_path os conf hdr dirpath x in
      let f = find_free_dir_handle os p.0 0 0 none false p.1.sess.dhandles p.1.io in
      let z : Ctx = record { io = f.io; sess = record (p.1.sess) { dhandles = f.handles } } in
      let seeks = find_free_dir_handle-Seeks os p.0 0 0 none false p.1.sess.dhandles p.1.io in
      let k = found-Keeps x p.1 f (requested_path-Keeps dirpath x) seeks in
      elim (Option-cases f.slot) [
        | inl e ↦ rw (e, opendir_path) (Keeps-trans x z _ k (Keeps-reply os hdr tnfs_emfile [] z))
        | inr (i, e) ↦ rw (e, opendir_path) (Keeps-trans x z _ k (open_stream-Keeps i z))
      ]

  pub tnfs_opendir-Keeps : (b : Buf) (x : Ctx) → Keeps x (tnfs_opendir os conf hdr b x)
  unfolding tnfs_opendir
  tnfs_opendir-Keeps b x = elim (Bool-cases (not (last_byte b == 0))) [
    | inr ended ↦ rw (ended, tnfs_opendir) (opendir_path-Keeps (string_at b 0) x)
    | inl open_end ↦ rw (open_end, tnfs_opendir) (Keeps-reply os hdr tnfs_einval [] x)
  ]

  pub tnfs_readdir-Keeps : (b : Buf) (x : Ctx) → Keeps x (tnfs_readdir os conf hdr b x)
  unfolding tnfs_readdir shape read_stream
  tnfs_readdir-Keeps b x =
      (grind (arith, shape-reply os hdr), λ f. grind (arith, Fits-reply os hdr))

  pub tnfs_closedir-Keeps : (b : Buf) (x : Ctx) → Keeps x (tnfs_closedir os conf hdr b x)
  unfolding tnfs_closedir shape
  tnfs_closedir-Keeps b x = (
    grind (arith, shape-reply os hdr, length-set, conns-close_stream),
    λ f. grind (arith, Fits-reply os hdr, length-set, conns-close_stream),
  )

  on_path-Keeps :
      (act : List ℕ → Ctx → Ctx) (b : Buf) (x : Ctx)
      → ((path : List ℕ) → Keeps x (act path x))
      → Keeps x (on_path os conf hdr act b x)
  unfolding on_path
  on_path-Keeps act b x h = (
    grind (arith, shape-reply os hdr, λ (p : List ℕ). (h p).0),
    λ f. grind (arith, Fits-reply os hdr, λ (p : List ℕ). (h p).1 f),
  )

  pub tnfs_mkdir-Keeps : (b : Buf) (x : Ctx) → Keeps x (tnfs_mkdir os conf hdr b x)
  unfolding tnfs_mkdir mkdir_path shape
  tnfs_mkdir-Keeps b x =
      on_path-Keeps (mkdir_path os conf hdr) b x (λ path. outcome-Keeps os conf hdr _ _)

  pub tnfs_rmdir-Keeps : (b : Buf) (x : Ctx) → Keeps x (tnfs_rmdir os conf hdr b x)
  unfolding tnfs_rmdir rmdir_path shape
  tnfs_rmdir-Keeps b x =
      on_path-Keeps (rmdir_path os conf hdr) b x (λ path. outcome-Keeps os conf hdr _ _)

  pub tnfs_seekdir-Keeps : (b : Buf) (x : Ctx) → Keeps x (tnfs_seekdir os conf hdr b x)
  unfolding tnfs_seekdir shape seek_stream
  tnfs_seekdir-Keeps b x = (
    grind (arith, shape-reply os hdr, length-set),
    λ f. grind (arith, Fits-reply os hdr, length-set),
  )

  pub tnfs_telldir-Keeps : (b : Buf) (x : Ctx) → Keeps x (tnfs_telldir os conf hdr b x)
  unfolding tnfs_telldir shape tell_stream
  tnfs_telldir-Keeps b x =
      (grind (arith, shape-reply os hdr), λ f. grind (arith, Fits-reply os hdr))

  conns-load_slot :
      (dh : DirHandle) (diropts sortopts maxresults : ℕ) (pattern : Option (List ℕ)) (io : Io)
      → conns (load_slot os conf hdr dh diropts sortopts maxresults pattern io).io ≡ conns io
  unfolding load_slot
  conns-load_slot dh diropts sortopts maxresults pattern io =
      grind (arith, conns-load_directory os, conns-traverse_directory os)

  finish_opendirx-Keeps :
      (i : ℕ) (l : Loaded) (x : Ctx)
      → conns l.io ≡ conns x.io
      → Keeps x (finish_opendirx os conf hdr i l x)
  unfolding finish_opendirx shape
  finish_opendirx-Keeps i l x h =
      (grind (arith, shape-reply os hdr, length-set), λ f. grind (arith, Fits-reply os hdr))

  readdirx_from-Keeps :
      (i req : ℕ) (dh : DirHandle) (l : List DirEntry) (x : Ctx)
      → Keeps x (readdirx_from os conf hdr i req dh l x)
  unfolding readdirx_from shape
  readdirx_from-Keeps i req dh [] x =
      (grind (arith, shape-reply os hdr), λ f. grind (arith, Fits-reply os hdr))
  readdirx_from-Keeps i req dh (e ∷ l) x =
      (grind (arith, shape-reply os hdr, length-set), λ f. grind (arith, Fits-reply os hdr))

  pub tnfs_readdirx-Keeps : (b : Buf) (x : Ctx) → Keeps x (tnfs_readdirx os conf hdr b x)
  unfolding tnfs_readdirx shape
  tnfs_readdirx-Keeps b x = (
    grind (arith, shape-reply os hdr, readdirx_from-Keeps),
    λ f. grind (arith, Fits-reply os hdr, readdirx_from-Keeps),
  )

  opendirx_path-Keeps :
      (b : Buf) (pattern : Option (List ℕ)) (dirpath : List ℕ) (x : Ctx)
      → Keeps x (opendirx_path os conf hdr b pattern dirpath x)
  unfolding opendirx_path
  opendirx_path-Keeps b pattern dirpath x =
      let diropts = byte_at b 0 in
      let sortopts = byte_at b 1 in
      let p = requested_path os conf hdr dirpath x in
      let hs = p.1.sess.dhandles in
      let f = find_free_dir_handle os p.0 diropts sortopts pattern (bit diropts 4) hs p.1.io in
      let z : Ctx = record { io = f.io; sess = record (p.1.sess) { dhandles = f.handles } } in
      let seeks =
        find_free_dir_handle-Seeks os p.0 diropts sortopts pattern (bit diropts 4) hs p.1.io in
      let k = found-Keeps x p.1 f (requested_path-Keeps dirpath x) seeks in
      elim (Option-cases f.slot) [
        | inl e ↦ rw (e, opendirx_path) (Keeps-trans x z _ k (Keeps-reply os hdr tnfs_emfile [] z))
        | inr (i, e) ↦
            let l =
              load_slot os conf hdr (dhandle_at z.sess i) diropts sortopts
                (tnfs16uint (drop 2 b.bytes)) pattern z.io in
            rw (e, opendirx_path)
              (Keeps-trans x z _ k (
                finish_opendirx-Keeps i l z (
                  conns-load_slot (dhandle_at z.sess i) diropts sortopts
                    (tnfs16uint (drop 2 b.bytes)) pattern z.io)))
      ]

  pub tnfs_opendirx-Keeps : (b : Buf) (x : Ctx) → Keeps x (tnfs_opendirx os conf hdr b x)
  unfolding tnfs_opendirx
  tnfs_opendirx-Keeps b x = elim (Bool-cases (ltb b.bufsz 7 || not (last_byte b == 0))) [
    | inl bad ↦ rw (bad, tnfs_opendirx) (Keeps-reply os hdr tnfs_einval [] x)
    | inr good ↦ rw (good, tnfs_opendirx) (opendirx_path-Keeps b _ _ x)
  ]

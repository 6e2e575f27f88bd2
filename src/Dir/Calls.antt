-- ===== src/Dir/Calls.antt =====
-- src/directory.c: a property of every call that changes no file or directory is kept by the commands
-- on directories that a read-only server carries out.
use tnfsd.Base.{
  All, ℕ, Bool, false, not, ◌||◌, Option, none, some, Option-cases, List, [], ◌∷◌, ◌==◌, ltb, refl,
  arith, inl, inr, Bool-cases,
}
use tnfsd.Os.{Os, Call, HoldsOfReads, is_mutating}
use tnfsd.Tnfs.{Config, DirEntry, DirHandle, Header, Buf, last_byte, string_at, Io, Ctx}
use tnfsd.Errortable.{tnfs_einval, tnfs_emfile}
use tnfsd.Path.{validate_path}
use tnfsd.Send.Laws.{All-reply}
use tnfsd.File.Calls.{Harmless}
use tnfsd.Dir.{close_stream, close_stale, claim, find_unused, find_handle, find_free_dir_handle}
use tnfsd.Dir.Load.{
  Entries, Loaded, load_ignore, load_entry, load_entries, visit, visit_all, load_directory,
  traverse_directory,
}
use tnfsd.Dir.Commands.{
  requested_path, open_stream, opendir_path, read_stream, seek_stream, tell_stream, load_slot,
  finish_opendirx, opendirx_path, tnfs_opendir, tnfs_readdir, tnfs_closedir, tnfs_seekdir,
  tnfs_telldir, tnfs_opendirx,
}
use tnfsd.Dir.Listing.{readdirx_from, tnfs_readdirx}

module _ (P : Call → Type 0) (reads : HoldsOfReads P) where
  -- The same of the calls alone.
  abbrev Quiet : Io → Io → Type 0
  Quiet io io' = All P io.calls → All P io'.calls

  pub close_stream-Quiet :
      (h : Option ℕ) (io : Io) → All P io.calls → All P (close_stream h io).calls
  unfolding close_stream is_mutating
  close_stream-Quiet none io q = q
  close_stream-Quiet (some d) io q = (reads _ refl, q)

  close_stale-Quiet : (now : ℕ) (hs : List DirHandle) (io : Io) → Quiet io (close_stale now hs io)
  unfolding close_stale
  close_stale-Quiet now [] io q = q
  close_stale-Quiet now (dh ∷ hs) io q =
      grind (arith, reads, close_stale-Quiet now hs, close_stream-Quiet)

  module _ (os : Os) (path : List ℕ) (diropt sortopt : ℕ) (pattern : Option (List ℕ)) where
    claim-Quiet :
        (dh : DirHandle) (i : ℕ) (hs : List DirHandle) (io : Io)
        → Quiet io (claim os path diropt sortopt pattern dh i hs io).io
    unfolding claim is_mutating
    claim-Quiet dh i hs io q = grind (arith, reads, close_stream-Quiet)

    find_unused-Quiet :
        (hs : List DirHandle) (io : Io)
        → Quiet io (find_unused os path diropt sortopt pattern hs io).io
    unfolding find_unused
    find_unused-Quiet hs io q =
        elim (Option-cases (find_handle (λ dh. not (dh.is_open || dh.loaded)) hs 0)) [
          | inl fresh ↦ elim (Option-cases (find_handle (λ dh. not dh.is_open) hs 0)) [
            | inl nothing ↦ rw (fresh, nothing, find_unused) q
            | inr (c, e) ↦ rw (fresh, e, find_unused) (claim-Quiet c.1 c.0 hs io q)
          ]
          | inr (c, e) ↦ rw (e, find_unused) (claim-Quiet c.1 c.0 hs io q)
        ]

    find_free_dir_handle-Quiet :
        (reuse : Bool) (hs : List DirHandle) (io : Io)
        → Quiet io (find_free_dir_handle os path diropt sortopt pattern reuse hs io).io
    unfolding find_free_dir_handle is_mutating
    find_free_dir_handle-Quiet reuse hs io q =
        grind (arith, reads, find_unused-Quiet, close_stale-Quiet)

  module _ (os : Os) where
    module _ (path : List ℕ) (ignore : List (List ℕ)) (diropts maxresults : ℕ)
        (pattern : Option (List ℕ)) where
      load_entry-Quiet :
          (name : List ℕ) (l : Entries) (io : Io)
          → Quiet io (load_entry os path ignore diropts maxresults pattern name l io).1
      unfolding load_entry is_mutating
      load_entry-Quiet name l io q = grind (arith, reads)

      load_entries-Quiet :
          (d : ℕ) (names : List (List ℕ)) (l : Entries) (io : Io)
          → Quiet io (load_entries os path ignore diropts maxresults pattern d names l io).1
      unfolding load_entries is_mutating
      load_entries-Quiet d [] l io q = (reads _ refl, q)
      load_entries-Quiet d (name ∷ names) l io q =
          grind (arith, reads, load_entry-Quiet, load_entries-Quiet d names)

      visit-Quiet :
          (p : List ℕ) (l : Entries) (io : Io)
          → Quiet io (visit os path ignore diropts maxresults pattern p l io).2
      unfolding visit is_mutating
      visit-Quiet p l io q = grind (arith, reads)

      visit_all-Quiet :
          (ps : List (List ℕ)) (l : Entries) (io : Io)
          → Quiet io (visit_all os path ignore diropts maxresults pattern ps l io).1
      unfolding visit_all
      visit_all-Quiet [] l io q = q
      visit_all-Quiet (p ∷ ps) l io q = grind (arith, reads, visit-Quiet, visit_all-Quiet ps)

    load_directory-Quiet :
        (dh : DirHandle) (diropts sortopts maxresults : ℕ) (pattern : Option (List ℕ)) (io : Io)
        → Quiet io (load_directory os dh diropts sortopts maxresults pattern io).io
    unfolding load_directory load_ignore is_mutating
    load_directory-Quiet dh diropts sortopts maxresults pattern io q =
        grind (arith, reads, load_entries-Quiet)

    traverse_directory-Quiet :
        (dh : DirHandle) (diropts sortopts maxresults : ℕ) (pattern : Option (List ℕ)) (io : Io)
        → Quiet io (traverse_directory os dh diropts sortopts maxresults pattern io).io
    unfolding traverse_directory load_ignore is_mutating
    traverse_directory-Quiet dh diropts sortopts maxresults pattern io q =
        grind (arith, reads, visit_all-Quiet)

  module _ (os : Os) (conf : Config) (hdr : Header) where
    requested_path-Quiet :
        (dirpath : List ℕ) (x : Ctx) → Harmless P x (requested_path os conf hdr dirpath x).1
    unfolding requested_path validate_path is_mutating
    requested_path-Quiet dirpath x q = (reads _ refl, q)

    open_stream-Harmless : (i : ℕ) (x : Ctx) → Harmless P x (open_stream os conf hdr i x)
    unfolding open_stream is_mutating
    open_stream-Harmless i x q = grind (arith, reads, All-reply os P reads hdr)

    opendir_path-Harmless :
        (dirpath : List ℕ) (x : Ctx) → Harmless P x (opendir_path os conf hdr dirpath x)
    unfolding opendir_path
    opendir_path-Harmless dirpath x q =
        let p = requested_path os conf hdr dirpath x in
        let f = find_free_dir_handle os p.0 0 0 none false p.1.sess.dhandles p.1.io in
        let z : Ctx = record { io = f.io; sess = record (p.1.sess) { dhandles = f.handles } } in
        let quiet =
          find_free_dir_handle-Quiet os p.0 0 0 none false p.1.sess.dhandles p.1.io
            (requested_path-Quiet dirpath x q) in
        elim (Option-cases f.slot) [
          | inl e ↦ rw (e, opendir_path) (All-reply os P reads hdr tnfs_emfile [] z quiet)
          | inr (i, e) ↦ rw (e, opendir_path) (open_stream-Harmless i z quiet)
        ]

    pub tnfs_opendir-Harmless : (b : Buf) (x : Ctx) → Harmless P x (tnfs_opendir os conf hdr b x)
    unfolding tnfs_opendir
    tnfs_opendir-Harmless b x q = elim (Bool-cases (not (last_byte b == 0))) [
      | inr ended ↦ rw (ended, tnfs_opendir) (opendir_path-Harmless (string_at b 0) x q)
      | inl open_end ↦ rw (open_end, tnfs_opendir) (All-reply os P reads hdr tnfs_einval [] x q)
    ]

    pub tnfs_readdir-Harmless : (b : Buf) (x : Ctx) → Harmless P x (tnfs_readdir os conf hdr b x)
    unfolding tnfs_readdir read_stream is_mutating
    tnfs_readdir-Harmless b x q = grind (arith, reads, All-reply os P reads hdr)

    pub tnfs_closedir-Harmless : (b : Buf) (x : Ctx) → Harmless P x (tnfs_closedir os conf hdr b x)
    unfolding tnfs_closedir
    tnfs_closedir-Harmless b x q =
        grind (arith, reads, All-reply os P reads hdr, close_stream-Quiet)

    pub tnfs_seekdir-Harmless : (b : Buf) (x : Ctx) → Harmless P x (tnfs_seekdir os conf hdr b x)
    unfolding tnfs_seekdir seek_stream is_mutating
    tnfs_seekdir-Harmless b x q = grind (arith, reads, All-reply os P reads hdr)

    pub tnfs_telldir-Harmless : (b : Buf) (x : Ctx) → Harmless P x (tnfs_telldir os conf hdr b x)
    unfolding tnfs_telldir tell_stream is_mutating
    tnfs_telldir-Harmless b x q = grind (arith, reads, All-reply os P reads hdr)

    load_slot-Quiet :
        (dh : DirHandle) (diropts sortopts maxresults : ℕ) (pattern : Option (List ℕ)) (io : Io)
        → Quiet io (load_slot os conf hdr dh diropts sortopts maxresults pattern io).io
    unfolding load_slot
    load_slot-Quiet dh diropts sortopts maxresults pattern io q =
        grind (arith, reads, load_directory-Quiet os, traverse_directory-Quiet os)

    finish_opendirx-Harmless :
        (i : ℕ) (l : Loaded) (x : Ctx)
        → All P l.io.calls
        → All P (finish_opendirx os conf hdr i l x).calls
    unfolding finish_opendirx
    finish_opendirx-Harmless i l x q = grind (arith, reads, All-reply os P reads hdr)

    opendirx_path-Harmless :
        (b : Buf) (pattern : Option (List ℕ)) (dirpath : List ℕ) (x : Ctx)
        → Harmless P x (opendirx_path os conf hdr b pattern dirpath x)
    unfolding opendirx_path
    opendirx_path-Harmless b pattern dirpath x q = grind (
      arith,
      reads,
      All-reply os P reads hdr,
      requested_path-Quiet,
      finish_opendirx-Harmless,
      load_slot-Quiet,
      find_free_dir_handle-Quiet os,
    )

    pub tnfs_opendirx-Harmless : (b : Buf) (x : Ctx) → Harmless P x (tnfs_opendirx os conf hdr b x)
    unfolding tnfs_opendirx
    tnfs_opendirx-Harmless b x q = elim (Bool-cases (ltb b.bufsz 7 || not (last_byte b == 0))) [
      | inl bad ↦ rw (bad, tnfs_opendirx) (All-reply os P reads hdr tnfs_einval [] x q)
      | inr good ↦ rw (good, tnfs_opendirx) (opendirx_path-Harmless b _ _ x q)
    ]

    readdirx_from-Harmless :
        (i req : ℕ) (dh : DirHandle) (l : List DirEntry) (x : Ctx)
        → Harmless P x (readdirx_from os conf hdr i req dh l x)
    unfolding readdirx_from
    readdirx_from-Harmless i req dh [] x q = grind (arith, reads, All-reply os P reads hdr)
    readdirx_from-Harmless i req dh (e ∷ l) x q = grind (arith, reads, All-reply os P reads hdr)

    pub tnfs_readdirx-Harmless : (b : Buf) (x : Ctx) → Harmless P x (tnfs_readdirx os conf hdr b x)
    unfolding tnfs_readdirx
    tnfs_readdirx-Harmless b x q =
        grind (arith, reads, All-reply os P reads hdr, readdirx_from-Harmless)

-- ===== src/Dir/Replies.antt =====
-- src/directory.c: every command on a directory is answered by one message, whatever the branch, and
-- the replies fit a message.
use tnfsd.Base.{
  ℕ, suc, Bool, false, Option, none, some, List, [], ◌∷◌, ◌+◌, ◌-◌, ◌≤◌, not, ◌||◌, Option-cases,
  ◌≡◌, ◌∙◌, ap, ◌==◌, refl, arith, length, inl, inr, Bool-cases, ltb, length-take, length-append,
}
use tnfsd.Os.{Os, Result, ok, err, sends}
use tnfsd.Tnfs.{Config, DirEntry, DirHandle, Header, Buf, last_byte, string_at, Io, Ctx}
use tnfsd.Strl.{strlcpy, strlcpy-take}
use tnfsd.Endian.{uint16tnfs, uint32tnfs}
use tnfsd.Errortable.{tnfs_einval, tnfs_emfile}
use tnfsd.Path.{validate_path}
use tnfsd.Send.Laws.{sends-reply}
use tnfsd.File.Replies.{Answered}
use tnfsd.File.Names.{on_path, outcome}
use tnfsd.Dir.{close_stream, close_stale, claim, find_unused, find_handle, find_free_dir_handle}
use tnfsd.Dir.Load.{
  Entries, Loaded, load_ignore, load_entry, load_entries, visit, visit_all, load_directory,
  traverse_directory,
}
use tnfsd.Dir.Commands.{
  requested_path, open_stream, opendir_path, read_stream, mkdir_path, rmdir_path, seek_stream,
  tell_stream, load_slot, finish_opendirx, opendirx_path, tnfs_opendir, tnfs_readdir, tnfs_closedir,
  tnfs_mkdir, tnfs_rmdir, tnfs_seekdir, tnfs_telldir, tnfs_opendirx,
}
use tnfsd.Dir.Listing.{entry_bytes, stops, fill_reply, readdirx_reply, readdirx_from, tnfs_readdirx}

length-strlcpy : (src : List ℕ) (n : ℕ) → length (strlcpy src (suc n)) ≤ n
length-strlcpy src n =
    rw (strlcpy-take src (suc n) (omega arith)) (omega (arith, length-take (suc n - 1) src))

pub sends-close_stream : (h : Option ℕ) (io : Io) → sends (close_stream h io).calls ≡ sends io.calls
unfolding close_stream sends
sends-close_stream none io = refl
sends-close_stream (some d) io = refl

sends-close_stale :
    (now : ℕ) (hs : List DirHandle) (io : Io) → sends (close_stale now hs io).calls ≡ sends io.calls
unfolding close_stale
sends-close_stale now [] io = refl
sends-close_stale now (dh ∷ hs) io = grind (arith, sends-close_stale now hs, sends-close_stream)

length-entry_bytes : (e : DirEntry) → length (entry_bytes e) ≡ 14 + length e.entrypath
unfolding entry_bytes uint32tnfs
length-entry_bytes e = omega (arith, length-append e.entrypath (0 ∷ []))

-- The entries that are put into a reply fit what is left of it.
pub length-fill_reply :
    (req sent size : ℕ) (l : List DirEntry)
    → size ≤ 527
    → length (fill_reply req l sent size).bytes + size ≤ 527
unfolding fill_reply stops
length-fill_reply req sent size [] h = omega arith
length-fill_reply req sent size (e ∷ l) h = elim (Bool-cases (stops req sent size e)) [
  | inl stop ↦ rw (stop, fill_reply) (omega arith)
  | inr go ↦
      let f = fill_reply req l (suc sent) (size + 14 + length e.entrypath) in
      rw (go, fill_reply)
        (grind (
          arith,
          length-append (entry_bytes e) f.bytes,
          length-entry_bytes e,
          length-fill_reply req (suc sent) (size + 14 + length e.entrypath) l (ground arith),
        ))
]

-- The reply to a READDIRX, filled from any entries, is no longer than the 527 bytes that
-- `tnfs_send` sends.
pub length-readdirx_reply :
    (dh : DirHandle) (req : ℕ) (l : List DirEntry)
    → length (readdirx_reply dh (fill_reply req l 0 4)) ≤ 527
unfolding readdirx_reply uint16tnfs
length-readdirx_reply dh req l = omega (arith, length-fill_reply req 0 4 l (omega arith))

module _ (os : Os) (path : List ℕ) (diropt sortopt : ℕ) (pattern : Option (List ℕ)) where
  sends-claim :
      (dh : DirHandle) (i : ℕ) (hs : List DirHandle) (io : Io)
      → sends (claim os path diropt sortopt pattern dh i hs io).io.calls ≡ sends io.calls
  unfolding claim sends
  sends-claim dh i hs io = grind (arith, sends-close_stream)

  sends-find_unused :
      (hs : List DirHandle) (io : Io)
      → sends (find_unused os path diropt sortopt pattern hs io).io.calls ≡ sends io.calls
  unfolding find_unused
  sends-find_unused hs io =
      elim (Option-cases (find_handle (λ dh. not (dh.is_open || dh.loaded)) hs 0)) [
        | inl fresh ↦ elim (Option-cases (find_handle (λ dh. not dh.is_open) hs 0)) [
          | inl nothing ↦ rw (fresh, nothing, find_unused) refl
          | inr (c, e) ↦ rw (fresh, e, find_unused) (sends-claim c.1 c.0 hs io)
        ]
        | inr (c, e) ↦ rw (e, find_unused) (sends-claim c.1 c.0 hs io)
      ]

  sends-find_free_dir_handle :
      (reuse : Bool) (hs : List DirHandle) (io : Io)
      → sends (find_free_dir_handle os path diropt sortopt pattern reuse hs io).io.calls
        ≡ sends io.calls
  unfolding find_free_dir_handle sends
  sends-find_free_dir_handle reuse hs io = grind (arith, sends-find_unused, sends-close_stale)

module _ (os : Os) where
  sends-load_ignore :
      (path : List ℕ) (io : Io) → sends (load_ignore os path io).1.calls ≡ sends io.calls
  unfolding load_ignore sends
  sends-load_ignore path io = refl

  module _ (path : List ℕ) (ignore : List (List ℕ)) (diropts maxresults : ℕ)
      (pattern : Option (List ℕ)) where
    sends-load_entry :
        (name : List ℕ) (l : Entries) (io : Io)
        → sends (load_entry os path ignore diropts maxresults pattern name l io).1.calls
          ≡ sends io.calls
    unfolding load_entry sends
    sends-load_entry name l io = grind arith

    sends-load_entries :
        (d : ℕ) (names : List (List ℕ)) (l : Entries) (io : Io)
        → sends (load_entries os path ignore diropts maxresults pattern d names l io).1.calls
          ≡ sends io.calls
    unfolding load_entries sends
    sends-load_entries d [] l io = refl
    sends-load_entries d (name ∷ names) l io =
        grind (arith, sends-load_entry, sends-load_entries d names)

    sends-visit :
        (p : List ℕ) (l : Entries) (io : Io)
        → sends (visit os path ignore diropts maxresults pattern p l io).2.calls ≡ sends io.calls
    unfolding visit sends
    sends-visit p l io = grind arith

    sends-visit_all :
        (ps : List (List ℕ)) (l : Entries) (io : Io)
        → sends (visit_all os path ignore diropts maxresults pattern ps l io).1.calls
          ≡ sends io.calls
    unfolding visit_all
    sends-visit_all [] l io = refl
    sends-visit_all (p ∷ ps) l io = grind (arith, sends-visit, sends-visit_all ps)

  sends-load_directory :
      (dh : DirHandle) (diropts sortopts maxresults : ℕ) (pattern : Option (List ℕ)) (io : Io)
      → sends (load_directory os dh diropts sortopts maxresults pattern io).io.calls
        ≡ sends io.calls
  unfolding load_directory sends
  sends-load_directory dh diropts sortopts maxresults pattern io =
      grind (arith, sends-load_ignore, sends-load_entries)

  sends-traverse_directory :
      (dh : DirHandle) (diropts sortopts maxresults : ℕ) (pattern : Option (List ℕ)) (io : Io)
      → sends (traverse_directory os dh diropts sortopts maxresults pattern io).io.calls
        ≡ sends io.calls
  unfolding traverse_directory sends
  sends-traverse_directory dh diropts sortopts maxresults pattern io =
      grind (arith, sends-load_ignore, sends-visit_all)

module _ (os : Os) (conf : Config) (hdr : Header) where
  on_path-Answered :
      (act : List ℕ → Ctx → Ctx) (b : Buf) (x : Ctx)
      → ((path : List ℕ) → Answered x (act path x))
      → Answered x (on_path os conf hdr act b x)
  unfolding on_path
  on_path-Answered act b x h = grind (arith, sends-reply os hdr)

  outcome-Answered : (r : Result (Unit {0})) (x : Ctx) → Answered x (outcome os conf hdr r x)
  unfolding outcome
  outcome-Answered (ok u) x = grind (arith, sends-reply os hdr)
  outcome-Answered (err e) x = grind (arith, sends-reply os hdr)

  pub tnfs_mkdir-Answered : (b : Buf) (x : Ctx) → Answered x (tnfs_mkdir os conf hdr b x)
  unfolding tnfs_mkdir mkdir_path sends
  tnfs_mkdir-Answered b x =
      on_path-Answered (mkdir_path os conf hdr) b x (λ path. grind (arith, outcome-Answered))

  pub tnfs_rmdir-Answered : (b : Buf) (x : Ctx) → Answered x (tnfs_rmdir os conf hdr b x)
  unfolding tnfs_rmdir rmdir_path sends
  tnfs_rmdir-Answered b x =
      on_path-Answered (rmdir_path os conf hdr) b x (λ path. grind (arith, outcome-Answered))

  requested_path_lem :
      (dirpath : List ℕ) (x : Ctx)
      → sends (requested_path os conf hdr dirpath x).1.calls ≡ sends x.calls
  unfolding requested_path validate_path sends
  requested_path_lem dirpath x = refl

  open_stream-Answered : (i : ℕ) (x : Ctx) → Answered x (open_stream os conf hdr i x)
  unfolding open_stream sends
  open_stream-Answered i x = grind (arith, sends-reply os hdr)

  opendir_path-Answered :
      (dirpath : List ℕ) (x : Ctx) → Answered x (opendir_path os conf hdr dirpath x)
  unfolding opendir_path
  opendir_path-Answered dirpath x =
      let p = requested_path os conf hdr dirpath x in
      let f = find_free_dir_handle os p.0 0 0 none false p.1.sess.dhandles p.1.io in
      let z : Ctx = record { io = f.io; sess = record (p.1.sess) { dhandles = f.handles } } in
      let quiet =
        sends-find_free_dir_handle os p.0 0 0 none false p.1.sess.dhandles p.1.io
        ∙ requested_path_lem dirpath x in
      elim (Option-cases f.slot) [
        | inl e ↦
            rw (e, opendir_path) (sends-reply os hdr tnfs_emfile [] z (omega arith) ∙ ap suc quiet)
        | inr (i, e) ↦ rw (e, opendir_path) (open_stream-Answered i z ∙ ap suc quiet)
      ]

  pub tnfs_opendir-Answered : (b : Buf) (x : Ctx) → Answered x (tnfs_opendir os conf hdr b x)
  unfolding tnfs_opendir
  tnfs_opendir-Answered b x = elim (Bool-cases (not (last_byte b == 0))) [
    | inr ended ↦ rw (ended, tnfs_opendir) (opendir_path-Answered (string_at b 0) x)
    | inl open_end ↦ rw (open_end, tnfs_opendir) (sends-reply os hdr tnfs_einval [] x (omega arith))
  ]

  read_stream-Answered : (d : ℕ) (x : Ctx) → Answered x (read_stream os conf hdr d x)
  unfolding read_stream sends
  read_stream-Answered d x = grind (arith, sends-reply os hdr, length-strlcpy, length-append)

  pub tnfs_readdir-Answered : (b : Buf) (x : Ctx) → Answered x (tnfs_readdir os conf hdr b x)
  unfolding tnfs_readdir
  tnfs_readdir-Answered b x = grind (arith, sends-reply os hdr, read_stream-Answered)

  pub tnfs_closedir-Answered : (b : Buf) (x : Ctx) → Answered x (tnfs_closedir os conf hdr b x)
  unfolding tnfs_closedir
  tnfs_closedir-Answered b x = grind (arith, sends-reply os hdr, sends-close_stream)

  pub tnfs_seekdir-Answered : (b : Buf) (x : Ctx) → Answered x (tnfs_seekdir os conf hdr b x)
  unfolding tnfs_seekdir seek_stream sends
  tnfs_seekdir-Answered b x = grind (arith, sends-reply os hdr)

  pub tnfs_telldir-Answered : (b : Buf) (x : Ctx) → Answered x (tnfs_telldir os conf hdr b x)
  unfolding tnfs_telldir tell_stream uint32tnfs sends
  tnfs_telldir-Answered b x = grind (arith, sends-reply os hdr)

  finish_opendirx-Answered :
      (i : ℕ) (l : Loaded) (x : Ctx)
      → sends l.io.calls ≡ sends x.calls
      → Answered x (finish_opendirx os conf hdr i l x)
  unfolding finish_opendirx uint16tnfs
  finish_opendirx-Answered i l x h = grind (arith, sends-reply os hdr)

  sends-load_slot :
      (dh : DirHandle) (diropts sortopts maxresults : ℕ) (pattern : Option (List ℕ)) (io : Io)
      → sends (load_slot os conf hdr dh diropts sortopts maxresults pattern io).io.calls
        ≡ sends io.calls
  unfolding load_slot
  sends-load_slot dh diropts sortopts maxresults pattern io =
      grind (arith, sends-load_directory os, sends-traverse_directory os)

  opendirx_path-Answered :
      (b : Buf) (pattern : Option (List ℕ)) (dirpath : List ℕ) (x : Ctx)
      → Answered x (opendirx_path os conf hdr b pattern dirpath x)
  unfolding opendirx_path
  opendirx_path-Answered b pattern dirpath x = grind (
    arith,
    sends-reply os hdr,
    requested_path_lem,
    finish_opendirx-Answered,
    sends-load_slot,
    sends-find_free_dir_handle os,
  )

  pub tnfs_opendirx-Answered : (b : Buf) (x : Ctx) → Answered x (tnfs_opendirx os conf hdr b x)
  unfolding tnfs_opendirx
  tnfs_opendirx-Answered b x = elim (Bool-cases (ltb b.bufsz 7 || not (last_byte b == 0))) [
    | inl bad ↦ rw (bad, tnfs_opendirx) (sends-reply os hdr tnfs_einval [] x (omega arith))
    | inr good ↦ rw (good, tnfs_opendirx) (opendirx_path-Answered b _ _ x)
  ]

  readdirx_from-Answered :
      (i req : ℕ) (dh : DirHandle) (l : List DirEntry) (x : Ctx)
      → Answered x (readdirx_from os conf hdr i req dh l x)
  unfolding readdirx_from
  readdirx_from-Answered i req dh [] x = grind (arith, sends-reply os hdr)
  readdirx_from-Answered i req dh (e ∷ l) x =
      grind (arith, sends-reply os hdr, length-readdirx_reply dh req (e ∷ l))

  pub tnfs_readdirx-Answered : (b : Buf) (x : Ctx) → Answered x (tnfs_readdirx os conf hdr b x)
  unfolding tnfs_readdirx
  tnfs_readdirx-Answered b x = grind (arith, sends-reply os hdr, readdirx_from-Answered)

-- ===== src/Dir/Listing.antt =====
-- src/directory.c, `tnfs_readdirx`: as many entries of a loaded directory as fit into one reply.
use tnfsd.Base.{
  ℕ, suc, Bool, true, false, not, ◌&&◌, ◌||◌, List, [], ◌∷◌, ◌++◌, ◌+◌, ◌==◌, ltb, leb,
  if◌then◌else◌, length,
}
use tnfsd.Os.{Os}
use tnfsd.Tnfs.{Config, DirEntry, DirHandle, Header, Buf, Ctx, byte_at, max_dhnd_per_conn}
use tnfsd.Endian.{uint16tnfs, uint32tnfs}
use tnfsd.Errortable.{tnfs_success, tnfs_ebadf, tnfs_eof}
use tnfsd.Send.{reply}
use tnfsd.DirList.{dirlist_get_index_for_node}
use tnfsd.Dir.Commands.{dhandle_at, put_dhandle}

abbrev pub tnfs_max_payload : ℕ
tnfs_max_payload = 527

abbrev pub readdirx_header_size : ℕ
readdirx_header_size = 4

abbrev pub readdirx_entry_size : ℕ
readdirx_entry_size = 14

unfoldable pub entry_bytes : DirEntry → List ℕ
unfolding uint32tnfs
entry_bytes e =
    e.flags
    ∷ (uint32tnfs e.size
        ++ (uint32tnfs e.mtime ++ (uint32tnfs e.ctime ++ (e.entrypath ++ (0 ∷ [])))))

-- What the loop has put into the reply, how many entries, and where it stopped.
pub record Filled : Type 0 where
  pub bytes : List ℕ
  pub sent : ℕ
  pub rest : List DirEntry

-- Does the loop stop before an entry?
unfoldable pub stops : ℕ → ℕ → ℕ → DirEntry → Bool
stops req_count count_sent total_size e =
    (not (req_count == 0) && leb req_count count_sent)
    || ltb tnfs_max_payload (total_size + readdirx_entry_size + length e.entrypath)

unfoldable pub fill_reply : ℕ → List DirEntry → ℕ → ℕ → Filled
unfolding entry_bytes stops
fill_reply req_count [] count_sent total_size = record { bytes = []; sent = count_sent; rest = [] }
fill_reply req_count (e ∷ rest) count_sent total_size =
    elim (stops req_count count_sent total_size e) [
      | true ↦ record { bytes = []; sent = count_sent; rest = e ∷ rest }
      | false ↦
          let f =
            fill_reply req_count rest (suc count_sent)
              (total_size + readdirx_entry_size + length e.entrypath) in
          record f { bytes = entry_bytes e ++ f.bytes }
    ]

abbrev at_end : List DirEntry → ℕ
at_end [] = 1
at_end (e ∷ l) = 0

-- the reply's header: how many entries, whether the directory is at its end, and where the first
-- entry stands; then the entries
unfoldable pub readdirx_reply : DirHandle → Filled → List ℕ
readdirx_reply dh f =
    f.sent
    ∷ at_end f.rest
    ∷ (uint16tnfs (dirlist_get_index_for_node dh.entry_list dh.current_entry) ++ f.bytes)

module _ (os : Os) (conf : Config) (hdr : Header) where
  unfoldable pub readdirx_from : ℕ → ℕ → DirHandle → List DirEntry → Ctx → Ctx
  unfolding fill_reply readdirx_reply
  readdirx_from i req_count dh [] x = reply os hdr tnfs_eof [] x
  readdirx_from i req_count dh (e ∷ rest) x =
      let f = fill_reply req_count (e ∷ rest) 0 readdirx_header_size in
      reply os hdr tnfs_success (readdirx_reply dh f)
        (put_dhandle i (record dh { current_entry = f.rest }) x)

  unfoldable pub tnfs_readdirx : Buf → Ctx → Ctx
  unfolding readdirx_from
  tnfs_readdirx b x =
      let i = byte_at b 0 in
      let dh = dhandle_at x.sess i in
      if not (b.bufsz == 2) || leb max_dhnd_per_conn i
      then reply os hdr tnfs_ebadf [] x
      else readdirx_from i (byte_at b 1) dh dh.current_entry x

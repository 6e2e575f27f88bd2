-- ===== src/Tests/Listing.antt =====
-- A client that reads a directory of three entries and makes one, and the wildcards.
use tnfsd.Base.{false, refl, ℕ, All, some, true, List, [], ◌∷◌, ◌++◌, ◌≡◌, ◌↔◌, arith}
use tnfsd.Tnfs.{Config, Header, Ctx, fresh_dhandle}
use tnfsd.Errortable.{tnfs_eof}
use tnfsd.Send.{reply}
use tnfsd.Dir.Pattern.{pattern_match}
use tnfsd.Dir.Pattern.Matching.{Matches, pattern_match-Matches}
use tnfsd.Dir.Listing.{tnfs_readdirx}
use tnfsd.Dir.Paging.{entries_bytes}
use tnfsd.Dir.Paging.Draining.{request, handed_out, left_at, drain, drain_lem}
use tnfsd.Endian.{tnfs16uint}
use tnfsd.Sessions.{tnfs_findsession_sid}
use tnfsd.Server.Decode.{tnfs_decode}
use tnfsd.Server.Confined.{Allowed, root_prefix}
use tnfsd.Server.Confined.Commands.{tnfs_decode-Confined}
use tnfsd.Tests.{
  busy, client, empty_disk-ReadBound, empty_disk, settings, start, mounted, header, three,
}

-- The directory is loaded in the first handle; the client asks for two entries, for as many as
-- there are, and for one.
abbrev listing : Ctx
listing = record {
  io = start;
  sess = record mounted { dhandles = record fresh_dhandle { current_entry = three } ∷ [] };
}

abbrev asks : List (Header × ℕ)
asks = (header, 2) ∷ (header, 0) ∷ (header, 1) ∷ []

drain_lem_example :
    (left_at 0 (drain empty_disk settings 0 asks listing) ≡ [])
    × (handed_out (drain empty_disk settings 0 asks listing).calls
        ≡ handed_out [] ++ entries_bytes three)
    × (tnfs_readdirx empty_disk settings header
          (request 0 9 0x11)
          (drain empty_disk settings 0 asks listing)
        ≡ reply empty_disk header tnfs_eof [] (drain empty_disk settings 0 asks listing))
drain_lem_example =
    drain_lem empty_disk settings 0 asks header 9 listing (omega arith) (omega arith)
      (omega arith, (omega arith, (omega arith, tt))) (omega arith)

-- "boot.xex" and "*.X?X"
pattern_match-Matches_example :
    (pattern_match (b'b' ∷ b'.' ∷ b'x' ∷ b'e' ∷ b'x' ∷ []) (b'*' ∷ b'.' ∷ b'X' ∷ b'?' ∷ b'X' ∷ [])
      ≡ true)
    ↔ Matches (b'b' ∷ b'.' ∷ b'x' ∷ b'e' ∷ b'x' ∷ []) (b'*' ∷ b'.' ∷ b'X' ∷ b'?' ∷ b'X' ∷ [])
pattern_match-Matches_example =
    pattern_match-Matches (b'b' ∷ b'.' ∷ b'x' ∷ b'e' ∷ b'x' ∷ [])
      (b'*' ∷ b'.' ∷ b'X' ∷ b'?' ∷ b'X' ∷ [])

-- MKDIR "/a", on a server that is not read-only
abbrev mkdir_request : List ℕ
mkdir_request = 0x34 ∷ 0x12 ∷ 5 ∷ 0x13 ∷ b'/' ∷ b'a' ∷ 0 ∷ []

abbrev writable : Config
writable = record settings { read_only = false }

is_found : tnfs_findsession_sid (tnfs16uint mkdir_request) busy.slist ≡ some (1, mounted)
unfolding tnfs_findsession_sid tnfs16uint
is_found = refl

tnfs_decode-Confined_example :
    All
      (Allowed (root_prefix writable mounted) [])
      (tnfs_decode empty_disk writable client 0 7 mkdir_request busy).calls
tnfs_decode-Confined_example =
    tnfs_decode-Confined empty_disk writable empty_disk-ReadBound client 0 7 mkdir_request busy 1
      mounted is_found

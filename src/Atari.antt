-- ===== src/Atari.antt =====
-- src/atari.c: Atari binary load files served as virtual disk images.
pub mod Bounds
pub mod Image
use tnfsd.Base.{
  ℕ, zero, suc, Bool, true, false, not, ◌&&◌, ◌||◌, Option, none, some, List, [], ◌∷◌, ◌++◌, ◌+◌,
  ◌-◌, ◌*◌, ◌/◌, ◌%◌, ◌==◌, ltb, leb, if◌then◌else◌, length, get_or, set, take, drop, replicate,
  bytes_eq, min,
}
use tnfsd.Base.Int.{ℤ, pos, negsuc, offset_by}
use tnfsd.Os.{
  Os, Call, Result, ok, err, Errno, OpenFlags, Access, rdonly, is_rdonly, Whence, seek_set,
  seek_cur, seek_end,
}
use tnfsd.Tnfs.{Config, Session, AtariFd, Io, Ctx, did, does, fresh_atari, max_fd_per_conn}

abbrev pub atr_header_size : ℕ
atr_header_size = 16

abbrev pub atr_data_size : ℕ
atr_data_size = 256 * 1024

abbrev pub atr_total_size : ℕ
atr_total_size = atr_header_size + atr_data_size

unfoldable pub round_up_128 : ℕ → ℕ
round_up_128 size = (size + 127) / 128 * 128

-- `generate_atr_header`
unfoldable pub atr_header : List ℕ
atr_header =
    0x96
    ∷ 0x02
    ∷ (atr_data_size / 16 % 256)
    ∷ (atr_data_size / 16 / 256 % 256)
    ∷ 0x80
    ∷ replicate 11 0

-- what follows the last dot, if there is one and it does not stand first; `found` is the best so far
unfoldable pub extension_after : Option (List ℕ) → List ℕ → List ℕ
extension_after found [] = elim found [ none ↦ [] | some e ↦ e ]
extension_after found (c ∷ cs) = extension_after (if c == b'.' then some cs else found) cs

unfoldable pub get_file_extension : List ℕ → List ℕ
unfolding extension_after
get_file_extension [] = []
get_file_extension (c ∷ cs) = extension_after none cs

unfoldable pub tolower : ℕ → ℕ
tolower c = if leb b'A' c && leb c b'Z' then c + 32 else c

unfoldable pub lower : List ℕ → List ℕ
unfolding tolower
lower [] = []
lower (c ∷ cs) = tolower c ∷ lower cs

-- `strcasecmp (ext, …) == 0`
unfoldable pub is_excluded_extension : List ℕ → Bool
unfolding lower bytes_eq
is_excluded_extension ext =
    bytes_eq (lower ext) (b'x' ∷ b'e' ∷ b'x' ∷ [])
    || bytes_eq (lower ext) (b'c' ∷ b'o' ∷ b'm' ∷ [])
    || bytes_eq (lower ext) (b'b' ∷ b'i' ∷ b'n' ∷ [])

abbrev pub read_only_flags : OpenFlags
read_only_flags = record {
  access = rdonly;
  append = false;
  creat = false;
  excl = false;
  trunc = false;
}

-- `flags & (O_WRONLY | O_RDWR | O_CREAT | O_APPEND)`
unfoldable pub writes : OpenFlags → Bool
writes f = not (is_rdonly f.access) || f.creat || f.append

module _ (os : Os) (conf : Config) where
  -- Whether a file is served as an image: the two bytes at its start are read to tell.
  unfoldable pub atari_should_virtualize : List ℕ → OpenFlags → Io → Bool × Io
  unfolding writes is_excluded_extension get_file_extension
  atari_should_virtualize filepath flags io =
      if not conf.atari_enabled
      then (false, io)
      else if writes flags
      then (false, io)
      else if is_excluded_extension (get_file_extension filepath)
      then (false, io)
      else (let r = os.open_file io.calls filepath read_only_flags 0 in
          let io1 = did (Call.open_file filepath read_only_flags 0) r io in
          elim r [
            | err e ↦ (false, io1)
            | ok fd ↦
                let n = os.read_file io1.calls fd 2 in
                let io2 = did (Call.read_file fd 2) n io1 in
                let io3 = did (Call.close_file fd) (os.close_file io2.calls fd) io2 in
                (elim n [ err e ↦ false | ok magic ↦ bytes_eq magic (0xFF ∷ 0xFF ∷ []) ], io3)
          ])

unfoldable pub atari_mark_fd : Session → ℕ → ℕ → Session
atari_mark_fd s tnfs_fd real_size = record s {
  atari_fd =
      set s.atari_fd tnfs_fd
        (record { is_atari_binary = true; virtual_position = 0; real_file_size = real_size });
}

unfoldable pub atari_clear_fd : Session → ℕ → Session
atari_clear_fd s tnfs_fd = record s { atari_fd = set s.atari_fd tnfs_fd fresh_atari }

abbrev pub atari_meta : Session → ℕ → AtariFd
atari_meta s tnfs_fd = get_or s.atari_fd tnfs_fd fresh_atari

unfoldable pub atari_is_virtual_fd : Session → ℕ → Bool
atari_is_virtual_fd s tnfs_fd =
    if leb max_fd_per_conn tnfs_fd then false else (atari_meta s tnfs_fd).is_atari_binary

-- how the loop of `atari_virtual_read` ends: with -1, or with the bytes read and the new position
pub data ReadEnd : Type 0 where
  failed : ReadEnd
  finished : List ℕ → ℕ → ReadEnd

pub data Region : Type 0 where
  done header boot real padding : Region

-- the bytes of the header and of the boot sectors, and the zeros that fill up the boot sectors
unfoldable pub header_bytes : ℕ → ℕ → List ℕ
unfolding atr_header
header_bytes vpos n = take n (drop vpos atr_header)

unfoldable pub boot_bytes : List ℕ → ℕ → ℕ → List ℕ
boot_bytes bootsector offset n =
    let actual = if ltb offset (length bootsector) then min n (length bootsector - offset) else 0 in
    take actual (drop offset bootsector) ++ replicate (n - actual) 0

-- what is added to the bytes already read
abbrev pub prepend : List ℕ → ReadEnd × Io → ReadEnd × Io
prepend bytes (failed, io) = (failed, io)
prepend bytes (finished rest vpos, io) = (finished (bytes ++ rest) vpos, io)

module _ (os : Os) (bootsector : List ℕ) (real_file_size os_fd : ℕ) where
  abbrev pub boot_end : ℕ
  boot_end = atr_header_size + round_up_128 (length bootsector)

  abbrev pub file_end : ℕ
  file_end = boot_end + real_file_size

  -- The third region: seek and read in the real file. `again` is the rest of the loop; `first` says
  -- that nothing has been read yet.
  unfoldable pub after_read :
      (ℕ → ℕ → Io → ReadEnd × Io) → Bool → ℕ → ℕ → ℕ → Result (List ℕ) → Io → ReadEnd × Io
  after_read again first vpos count file_bytes (err e) io =
      (if first then failed else finished [] vpos, io)
  after_read again first vpos count file_bytes (ok got) io =
      let rest = prepend got (again (vpos + length got) (count - length got) io) in
      if ltb (length got) file_bytes then (finished got (vpos + length got), io) else rest

  unfoldable pub after_seek :
      (ℕ → ℕ → Io → ReadEnd × Io) → Bool → ℕ → ℕ → Result ℕ → Io → ReadEnd × Io
  unfolding after_read
  after_seek again first vpos count (err e) io = (finished [] vpos, io)
  after_seek again first vpos count (ok at) io =
      let file_bytes = min count (file_end - vpos) in
      let r = os.read_file io.calls os_fd file_bytes in
      after_read again first vpos count file_bytes r (did (Call.read_file os_fd file_bytes) r io)

  -- the branch that a round of the loop takes
  unfoldable pub region : ℕ → ℕ → Region
  region vpos count =
      if not (ltb 0 count && ltb vpos atr_total_size)
      then done
      else if ltb vpos atr_header_size
      then header
      else if ltb vpos boot_end
      then boot
      else if ltb vpos file_end
      then real
      else padding

  -- one round of the loop
  unfoldable pub read_round :
      (ℕ → ℕ → Io → ReadEnd × Io) → Bool → ℕ → ℕ → Io → Region → ReadEnd × Io
  unfolding header_bytes boot_bytes after_seek
  read_round again first vpos count io done = (finished [] vpos, io)
  read_round again first vpos count io header =
      let n = min count (atr_header_size - vpos) in
      prepend (header_bytes vpos n) (again (vpos + n) (count - n) io)
  read_round again first vpos count io boot =
      let n = min count (boot_end - vpos) in
      prepend (boot_bytes bootsector (vpos - atr_header_size) n) (again (vpos + n) (count - n) io)
  read_round again first vpos count io real =
      let offset = vpos - boot_end in
      let r = os.lseek io.calls os_fd (pos offset) seek_set in
      after_seek again first vpos count r (did (Call.lseek os_fd (pos offset) seek_set) r io)
  read_round again first vpos count io padding =
      let n = min count (atr_total_size - vpos) in
      prepend (replicate n 0) (again (vpos + n) (count - n) io)

  -- The loop. Every round reads a byte at least, so `count` rounds are enough.
  unfoldable pub read_regions : ℕ → Bool → ℕ → ℕ → Io → ReadEnd × Io
  unfolding read_round region
  read_regions zero first vpos count io = (finished [] vpos, io)
  read_regions (suc fuel) first vpos count io =
      read_round (read_regions fuel false) first vpos count io (region vpos count)

-- The bytes read, or -1, with the position moved on.
unfoldable pub virtual_end : ℕ → AtariFd → Ctx → ReadEnd × Io → Result (List ℕ) × Ctx
virtual_end tnfs_fd m x (failed, io) = (err io.errno, record x { io = io })
virtual_end tnfs_fd m x (finished bytes at, io) = (
  ok bytes,
  record x {
    io = io;
    sess = record (x.sess) {
      atari_fd = set (x.sess).atari_fd tnfs_fd (record m { virtual_position = at });
    };
  },
)

unfoldable pub atari_virtual_read : Os → Config → ℕ → ℕ → ℕ → Ctx → Result (List ℕ) × Ctx
unfolding read_regions virtual_end
atari_virtual_read os conf tnfs_fd os_fd count x =
    let m = atari_meta x.sess tnfs_fd in
    let vpos = m.virtual_position in
    let n = min count (atr_total_size - vpos) in
    let end = read_regions os conf.bootsector m.real_file_size os_fd n true vpos n x.io in
    if leb atr_total_size vpos then (ok [], x) else virtual_end tnfs_fd m x end

-- where a seek ends, -1 or not
abbrev pub seek_target : Whence → ℕ → ℤ → ℤ
seek_target seek_set at offset = offset
seek_target seek_cur at offset = offset_by at offset
seek_target seek_end at offset = offset_by atr_total_size offset

unfoldable pub atari_virtual_lseek : ℕ → ℤ → Whence → Ctx → Result ℕ × Ctx
unfolding offset_by
atari_virtual_lseek tnfs_fd offset whence x =
    let m = atari_meta x.sess tnfs_fd in
    elim (seek_target whence m.virtual_position offset) [
      | negsuc n ↦ (err Errno.einval, record x { io = record (x.io) { errno = Errno.einval } })
      | pos at ↦ (
        ok at,
        record x {
          sess = record (x.sess) {
            atari_fd = set (x.sess).atari_fd tnfs_fd (record m { virtual_position = at });
          };
        },
      )
    ]

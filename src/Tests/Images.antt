-- ===== src/Tests/Images.antt =====
-- A file of three bytes that is served as an image, the header of images, and the sort of a directory.
use tnfsd.Base.{◌↔◌, ℕ, true, List, [], ◌∷◌, ◌≡◌, refl, arith, take, drop}
use tnfsd.Base.Int.{ℤ, pos, negsuc}
use tnfsd.Os.{Os, Call, Result, ok, err, Errno}
use tnfsd.Tnfs.{Config, Session}
use tnfsd.Atari.{atr_header, atari_meta, atari_virtual_read}
use tnfsd.Atari.Image.{Holds, slice, image}
use tnfsd.Atari.Image.Reading.{atari_virtual_read-image}
use tnfsd.DirList.{dirlist_sort, goes_first}
use tnfsd.DirList.Fuel.{Sorts, dirlist_sort-Sorts}
use tnfsd.Tests.{empty_disk, settings, start, mounted, named}

abbrev boot_file : List ℕ
boot_file = 0xFF ∷ 0xFF ∷ 5 ∷ []

abbrev seeks : ℤ → Result ℕ
seeks (pos n) = ok n
seeks (negsuc n) = err Errno.einval

abbrev reads : List Call → ℕ → Result (List ℕ)
reads (Call.lseek fd (pos off) w ∷ h) n = ok (take n (drop off boot_file))
reads h n = ok []

abbrev file_disk : Os
file_disk = record empty_disk { lseek = λ h fd o w. seeks o; read_file = λ h fd n. reads h n }

file_disk-Holds : Holds file_disk 6 boot_file
file_disk-Holds = (λ h off. refl, λ h off n. refl)

abbrev atari_settings : Config
atari_settings = record settings { atari_enabled = true; bootsector = 1 ∷ [] }

-- a session that has read as far as the end of the boot sectors, but for two bytes
abbrev playing : Session
playing = record mounted {
  atari_fd = record { is_atari_binary = true; virtual_position = 142; real_file_size = 3 } ∷ [];
}

atari_virtual_read-image_example :
    ((atari_virtual_read file_disk atari_settings 0 6 7 (record { io = start; sess = playing })).0
      ≡ ok (slice (image (1 ∷ []) boot_file) 7 142))
    × ((atari_meta
          (atari_virtual_read file_disk atari_settings 0 6 7
            (record { io = start; sess = playing })).1.sess
          0).virtual_position
        ≡ 149)
atari_virtual_read-image_example =
    atari_virtual_read-image file_disk atari_settings 0 6 7 (record { io = start; sess = playing })
      boot_file file_disk-Holds refl (omega arith)

dirlist_sort-Sorts_example :
    Sorts 0 2 (named 3 ∷ named 1 ∷ named 2 ∷ []) (named 1 ∷ named 2 ∷ named 3 ∷ [])
    ↔ (named 1 ∷ named 2 ∷ named 3 ∷ [] ≡ dirlist_sort 0 (named 3 ∷ named 1 ∷ named 2 ∷ []))
dirlist_sort-Sorts_example =
    dirlist_sort-Sorts 0 2 (named 3 ∷ named 1 ∷ named 2 ∷ []) (named 1 ∷ named 2 ∷ named 3 ∷ [])
      (omega arith)

-- It is the case: the recursion sorts the three.
of_three : Sorts 0 2 (named 3 ∷ named 1 ∷ named 2 ∷ []) (named 1 ∷ named 2 ∷ named 3 ∷ [])
unfolding dirlist_sort goes_first
of_three =
    (dirlist_sort-Sorts 0 2 (named 3 ∷ named 1 ∷ named 2 ∷ []) (named 1 ∷ named 2 ∷ named 3 ∷ [])
        (omega arith)).1
      refl

-- The header of an image: 256 KB in 16-byte units are 0x4000, and a sector has 128 bytes.
header_bytes_of_image :
    atr_header ≡ 0x96 ∷ 0x02 ∷ 0x00 ∷ 0x40 ∷ 0x80 ∷ 0 ∷ 0 ∷ 0 ∷ 0 ∷ 0 ∷ 0 ∷ 0 ∷ 0 ∷ 0 ∷ 0 ∷ 0 ∷ []
unfolding atr_header
header_bytes_of_image = refl

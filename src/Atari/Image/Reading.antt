-- ===== src/Atari/Image/Reading.antt =====
-- src/atari.c, `atari_virtual_read`: what a read gives is a part of the image.
use tnfsd.Base.{
  get_or-set, ℕ, zero, suc, Bool, true, false, not, ◌&&◌, List, [], ◌++◌, ◌+◌, ◌-◌, ◌≤◌, ◌<◌, ◌≡◌,
  ◌∙◌, refl, ap, ap₂, inl, inr, arith, min, ltb, leb, Bool-cases, length, replicate,
}
use tnfsd.Os.{Os, Result, ok}
use tnfsd.Tnfs.{Config, AtariFd, Io, Ctx}
use tnfsd.Atari.{
  ReadEnd, failed, finished, Region, header, boot, real, padding, region, header_bytes, boot_bytes,
  prepend, after_read, after_seek, read_round, read_regions, virtual_end, atari_meta,
  atari_virtual_read, atr_total_size,
}
use tnfsd.Atari.Image.{
  slice, slice-append, length-slice, Holds, boot_end_at, image, header-image, boot-image,
  file-image, padding-image,
}

abbrev bytes_of : ReadEnd → List ℕ
bytes_of failed = []
bytes_of (finished got at) = got

abbrev end_of : ReadEnd → ℕ
end_of failed = 0
end_of (finished got at) = at

module _ (bootsector bytes : List ℕ) where
  abbrev img : ℕ → ℕ
  img = image bootsector bytes

  abbrev end_at : ℕ
  end_at = boot_end_at bootsector bytes

  -- The bytes of one round, and those of the rounds after it
  on_from :
      (count n v : ℕ) (got : List ℕ) (r : ReadEnd × Io)
      → n ≤ count
      → got ≡ slice img n v
      → r.0 ≡ finished (slice img (count - n) (v + n)) (v + n + (count - n))
      → (prepend got r).0 ≡ finished (slice img count v) (v + count)
  on_from count n v got (failed, io) h g e = absurd (cc e)
  on_from count n v got (finished rest at, io) h g e =
      let all : n + (count - n) ≡ count = omega arith in
      let end : v + n + (count - n) ≡ v + count = omega arith in
      ap₂ finished
        (ap₂ (λ a b. a ++ b) g (ap bytes_of e)
          ∙ slice-append img n (count - n) v
          ∙ ap (λ k. slice img k v) all)
        (ap end_of e ∙ end)

  module _ (os : Os) (fd : ℕ) (holds : Holds os fd bytes) where
    -- Reads from every position to the end of the disk are right.
    abbrev Right : ℕ → (ℕ → ℕ → Io → ReadEnd × Io) → Type 0
    Right fuel again =
        (v count : ℕ) (io : Io)
        → count ≤ fuel
        → v + count ≤ atr_total_size
        → (again v count io).0 ≡ finished (slice img count v) (v + count)

    after_read-image :
        (fuel : ℕ) (again : ℕ → ℕ → Io → ReadEnd × Io)
        → Right fuel again
        → (first : Bool) (v count n : ℕ) (r : Result (List ℕ)) (io : Io) → 1 ≤ n
        → n ≤ count
        → count ≤ suc fuel
        → v + count ≤ atr_total_size
        → r ≡ ok (slice img n v)
        → (after_read os bootsector (length bytes) fd again first v count n r io).0
          ≡ finished (slice img count v) (v + count)
    unfolding after_read
    after_read-image fuel again ih first v count n r io some_left le enough inside e =
        let got = slice img n v in
        let len : length got ≡ n = length-slice img n v in
        let full : ltb (length got) n ≡ false = ground (arith, len) in
        rw (e, full, after_read)
          (on_from count n v got (again (v + length got) (count - length got) io) le refl
            (rw len (ih (v + n) (count - n) io (omega arith) (omega arith))))

    module _ (fuel : ℕ) (again : ℕ → ℕ → Io → ReadEnd × Io) (ih : Right fuel again) (first : Bool)
        (v count : ℕ) (io : Io) (enough : count ≤ suc fuel) (inside : v + count ≤ atr_total_size)
        (some_left : 1 ≤ count) where
      -- A round in the region `g` is right.
      abbrev RoundRight : Region → Type 0
      RoundRight g =
          (read_round os bootsector (length bytes) fd again first v count io g).0
          ≡ finished (slice img count v) (v + count)

      -- A round gives at least one byte, and the rest is right.
      round_on :
          (n : ℕ) (got : List ℕ) (io' : Io)
          → 1 ≤ n
          → n ≤ count
          → got ≡ slice img n v
          → (prepend got (again (v + n) (count - n) io')).0
            ≡ finished (slice img count v) (v + count)
      round_on n got io' one le g =
          on_from count n v got (again (v + n) (count - n) io') le g
            (ih (v + n) (count - n) io' (omega arith) (omega arith))

      header_round : v < 16 → RoundRight header
      unfolding read_round
      header_round h =
          let n = min count (16 - v) in
          round_on n (header_bytes v n) io (omega arith) (omega arith)
            (header-image bootsector bytes n v (omega arith))

      boot_round : 16 ≤ v → v < end_at → RoundRight boot
      unfolding read_round
      boot_round l u =
          let n = min count (end_at - v) in
          round_on n (boot_bytes bootsector (v - 16) n) io (omega arith) (omega arith)
            (boot-image bootsector bytes n v l (omega arith))

      padding_round : end_at + length bytes ≤ v → RoundRight padding
      unfolding read_round
      padding_round l =
          let n = min count (atr_total_size - v) in
          round_on n (replicate n 0) io (omega arith) (omega arith)
            (padding-image bootsector bytes n v l)

      real_round : end_at ≤ v → v < end_at + length bytes → RoundRight real
      unfolding read_round after_seek
      real_round l u =
          let off = v - end_at in
          let n = min count (end_at + length bytes - v) in
          rw (holds.0 io.calls off, after_seek)
            (after_read-image fuel again ih first v count n _ _ (omega arith) (omega arith) enough
              inside
              (holds.1 io.calls off n ∙ ap ok (file-image bootsector bytes n v l (omega arith))))

      read_round-image : RoundRight (region os bootsector (length bytes) fd v count)
      unfolding region
      read_round-image =
          let more : (not (ltb 0 count && ltb v atr_total_size)) ≡ false = ground arith in
          elim (Bool-cases (ltb v 16)) [
            | inl in_header ↦ rw (more, in_header, region) (header_round (ground arith))
            | inr past_header ↦ elim (Bool-cases (ltb v end_at)) [
              | inl in_boot ↦
                  rw (more, past_header, in_boot, region) (boot_round (ground arith) (ground arith))
              | inr past_boot ↦ elim (Bool-cases (ltb v (end_at + length bytes))) [
                | inl in_file ↦
                    rw (more, past_header, past_boot, in_file, region)
                      (real_round (ground arith) (ground arith))
                | inr past_file ↦
                    rw (more, past_header, past_boot, past_file, region)
                      (padding_round (ground arith))
              ]
            ]
          ]

    nothing_left :
        (v count : ℕ) → count ≡ 0 → finished [] v ≡ finished (slice img count v) (v + count)
    unfolding slice
    nothing_left v count e = let same : v + 0 ≡ v = omega arith in rw (e, same) refl

    read_regions-image :
        (fuel : ℕ) (first : Bool)
        → Right fuel (read_regions os bootsector (length bytes) fd fuel first)
    unfolding read_regions
    read_regions-image zero first v count io enough inside = nothing_left v count (omega arith)
    read_regions-image (suc fuel) first v count io enough inside = elim (Bool-cases (ltb 0 count)) [
      | inl more ↦
          read_round-image fuel (read_regions os bootsector (length bytes) fd fuel false)
            (read_regions-image fuel false) first v count io enough inside (ground arith)
      | inr no_more ↦ rw (no_more, region, read_round) (nothing_left v count (ground arith))
    ]

-- How many bytes of the image a read gives.
abbrev pub available : ℕ → ℕ → ℕ
available count vpos = min count (atr_total_size - vpos)

-- What the end of a read stores.
virtual_end-finished :
    (i at : ℕ) (m : AtariFd) (x : Ctx) (r : ReadEnd × Io) (got : List ℕ)
    → i < length (x.sess).atari_fd
    → r.0 ≡ finished got at
    → ((virtual_end i m x r).0 ≡ ok got)
      × ((atari_meta (virtual_end i m x r).1.sess i).virtual_position ≡ at)
unfolding virtual_end
virtual_end-finished i at m x (failed, io) got known e = absurd (cc e)
virtual_end-finished i at m x (finished bytes end, io) got known e = (
  ap (λ r. ok (bytes_of r)) e,
  ap (λ a. a.virtual_position)
        (get_or-set i (record m { virtual_position = end }) _ (x.sess).atari_fd known)
      ∙ ap end_of e,
)

-- A read of an image, whose file has the size that was found at its opening and can be sought and
-- read as a regular file can, gives the bytes of the image from the position of the descriptor
-- on, as many as are asked for or as there are up to the end of the disk, whatever regions they
-- lie in, and moves the position on by their number. The slot is one that the session has.
pub atari_virtual_read-image :
    (os : Os) (conf : Config) (i fd count : ℕ) (x : Ctx) (bytes : List ℕ)
    → Holds os fd bytes
    → (atari_meta x.sess i).real_file_size ≡ length bytes
    → i < length (x.sess).atari_fd
    → ((atari_virtual_read os conf i fd count x).0
        ≡ ok (
            slice
              (image conf.bootsector bytes)
              (available count (atari_meta x.sess i).virtual_position)
              (atari_meta x.sess i).virtual_position))
      × ((atari_meta (atari_virtual_read os conf i fd count x).1.sess i).virtual_position
          ≡ (atari_meta x.sess i).virtual_position
            + available count (atari_meta x.sess i).virtual_position)
unfolding atari_virtual_read slice
atari_virtual_read-image os conf i fd count x bytes holds size known =
    let m = atari_meta x.sess i in
    let v = m.virtual_position in
    let n = available count v in
    let right = read_regions-image conf.bootsector bytes os fd holds n true v n x.io in
    elim (Bool-cases (leb atr_total_size v)) [
      | inl past ↦
          let nothing : n ≡ 0 = ground arith in rw (past, nothing, slice) (refl, omega arith)
      | inr inside ↦
          rw (inside, atari_virtual_read)
            (virtual_end-finished i (v + n) m x _ (slice (image conf.bootsector bytes) n v) known
              (rw size (right (omega arith) (ground arith))))
    ]

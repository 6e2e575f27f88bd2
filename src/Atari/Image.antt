-- ===== src/Atari/Image.antt =====
-- src/atari.c, `atari_virtual_read`, against the image as the byte at each position: the header, the
-- boot sectors filled up with zeros, the file, and zeros up to the size of the disk.
pub mod Reading
use tnfsd.Base.{
  ℕ, zero, suc, Bool, true, false, not, ◌&&◌, List, [], ◌∷◌, ◌++◌, ◌+◌, ◌-◌, ◌≤◌, ◌<◌, ◌≡◌, ◌∙◌,
  refl, sym, subst, ap, ap₂, inl, inr, arith, min, ltb, leb, if◌then◌else◌, Bool-cases, length,
  get_or, set, take, drop, replicate, append-nil, take-of_le, length-take, length-drop,
}
use tnfsd.Base.Int.{ℤ, pos}
use tnfsd.Os.{Os, Call, Result, ok, err, Whence, seek_set}
use tnfsd.Tnfs.{Config, Session, AtariFd, Io, Ctx, did}
use tnfsd.Atari.{
  ReadEnd, failed, finished, Region, done, header, boot, real, padding, region, header_bytes,
  boot_bytes, prepend, after_read, after_seek, read_round, read_regions, virtual_end, atari_meta,
  atari_virtual_read, file_end, boot_end, atr_total_size, atr_header, round_up_128,
}

-- `n` values of a function, from `v` on.
unfoldable pub slice : (ℕ → ℕ) → ℕ → ℕ → List ℕ
slice f zero v = []
slice f (suc n) v = f v ∷ slice f n (suc v)

pub length-slice : (f : ℕ → ℕ) (n v : ℕ) → length (slice f n v) ≡ n
unfolding slice
length-slice f zero v = refl
length-slice f (suc n) v = ap suc (length-slice f n (suc v))

pub slice-append : (f : ℕ → ℕ) (n m v : ℕ) → slice f n v ++ slice f m (v + n) ≡ slice f (n + m) v
unfolding slice
slice-append f zero m v =
    let e : v + 0 ≡ v = omega arith in let e' : 0 + m ≡ m = omega arith in rw (e, e') refl
slice-append f (suc n) m v =
    let e : v + suc n ≡ suc v + n = omega arith in
    let e' : suc n + m ≡ suc (n + m) = omega arith in
    rw e' (
      ap (λ l. f v ∷ l)
        (subst (λ k. slice f n (suc v) ++ slice f m k ≡ slice f (n + m) (suc v)) (sym e)
          (slice-append f n m (suc v))))

slice-ext :
    (f g : ℕ → ℕ) (n v : ℕ) → ((i : ℕ) → v ≤ i → i < v + n → f i ≡ g i) → slice f n v ≡ slice g n v
unfolding slice
slice-ext f g zero v h = refl
slice-ext f g (suc n) v h =
    ap₂ (λ c l. c ∷ l) (h v (omega arith) (omega arith))
      (slice-ext f g n (suc v) (λ i l u. h i (omega arith) (omega arith)))

slice-shift : (f : ℕ → ℕ) (k n v : ℕ) → k ≤ v → slice f n (v - k) ≡ slice (λ i. f (i - k)) n v
unfolding slice
slice-shift f k zero v h = refl
slice-shift f k (suc n) v h =
    let e : suc (v - k) ≡ suc v - k = omega arith in
    ap (λ l. f (v - k) ∷ l)
      (subst (λ w. slice f n w ≡ slice (λ i. f (i - k)) n (suc v)) (sym e)
        (slice-shift f k n (suc v) (omega arith)))

slice-suc : (f : ℕ → ℕ) (n v : ℕ) → slice f n (suc v) ≡ slice (λ i. f (suc i)) n v
unfolding slice
slice-suc f zero v = refl
slice-suc f (suc n) v = ap (λ l. f (suc v) ∷ l) (slice-suc f n (suc v))

slice_zeros : (n v : ℕ) → slice (λ i. 0) n v ≡ replicate n 0
unfolding slice
slice_zeros zero v = refl
slice_zeros (suc n) v = ap (λ l. 0 ∷ l) (slice_zeros n (suc v))

-- `n` bytes of a list, filled up with zeros.
unfoldable fill : List ℕ → ℕ → List ℕ
fill xs zero = []
fill [] (suc n) = 0 ∷ fill [] n
fill (x ∷ xs) (suc n) = x ∷ fill xs n

slice-fill : (xs : List ℕ) (n v : ℕ) → slice (λ i. get_or xs i 0) n v ≡ fill (drop v xs) n
unfolding slice fill
slice-fill xs zero v = refl
slice-fill [] (suc n) zero = ap (λ l. 0 ∷ l) (slice-fill [] n 1)
slice-fill [] (suc n) (suc v) = ap (λ l. 0 ∷ l) (slice-fill [] n (suc (suc v)))
slice-fill (x ∷ xs) (suc n) zero =
    ap (λ l. x ∷ l) (slice-suc (λ i. get_or (x ∷ xs) i 0) n 0 ∙ slice-fill xs n 0)
slice-fill (x ∷ xs) (suc n) (suc v) =
    slice-suc (λ i. get_or (x ∷ xs) i 0) (suc n) v ∙ slice-fill xs (suc n) v

fill_zeros : (n : ℕ) → fill [] n ≡ replicate n 0
unfolding fill
fill_zeros zero = refl
fill_zeros (suc n) = ap (λ l. 0 ∷ l) (fill_zeros n)

take-fill :
    (xs : List ℕ) (n a : ℕ) → a ≡ min n (length xs) → fill xs n ≡ take a xs ++ replicate (n - a) 0
unfolding fill
take-fill xs zero a e = let none_left : a ≡ 0 = omega arith in rw none_left refl
take-fill [] (suc n) a e =
    let none_left : a ≡ 0 = omega arith in
    let all : suc n - 0 ≡ suc n = omega arith in rw (none_left, all) (fill_zeros (suc n))
take-fill (x ∷ xs) (suc n) zero e = absurd (omega arith)
take-fill (x ∷ xs) (suc n) (suc a) e =
    let same : suc n - suc a ≡ n - a = omega arith in
    rw same (ap (λ l. x ∷ l) (take-fill xs n a (omega arith)))

fill-take : (xs : List ℕ) (n : ℕ) → n ≤ length xs → fill xs n ≡ take n xs
unfolding fill
fill-take xs zero h = refl
fill-take [] (suc n) h = absurd (omega arith)
fill-take (x ∷ xs) (suc n) h = ap (λ l. x ∷ l) (fill-take xs n (omega arith))

-- Bytes of a list, all of which it has
take-slice :
    (xs : List ℕ) (n v : ℕ)
    → v + n ≤ length xs
    → take n (drop v xs) ≡ slice (λ i. get_or xs i 0) n v
take-slice xs n v h =
    sym (slice-fill xs n v ∙ fill-take (drop v xs) n (omega (arith, length-drop v xs)))

-- What a regular file with these bytes answers to a seek and a read after it.
abbrev pub Holds : Os → ℕ → List ℕ → Type 0
Holds os fd bytes =
    ((h : List Call) (off : ℕ) → os.lseek h fd (pos off) seek_set ≡ ok off)
    × ((h : List Call) (off n : ℕ)
        → os.read_file (Call.lseek fd (pos off) seek_set ∷ h) fd n ≡ ok (take n (drop off bytes)))

module _ (bootsector bytes : List ℕ) where
  abbrev pub boot_end_at : ℕ
  boot_end_at = 16 + round_up_128 (length bootsector)

  -- The byte of the image at a position.
  unfoldable pub image : ℕ → ℕ
  image v =
      if ltb v 16
      then get_or atr_header v 0
      else if ltb v boot_end_at
      then get_or bootsector (v - 16) 0
      else if ltb v (boot_end_at + length bytes)
      then get_or bytes (v - boot_end_at) 0
      else 0

  pub header-image : (n v : ℕ) → v + n ≤ 16 → header_bytes v n ≡ slice image n v
  unfolding header_bytes image
  header-image n v h =
      take-slice atr_header n v h
      ∙ slice-ext (λ i. get_or atr_header i 0) image n v (λ i l u. ground arith)

  pub boot-image :
      (n v : ℕ) → 16 ≤ v → v + n ≤ boot_end_at → boot_bytes bootsector (v - 16) n ≡ slice image n v
  unfolding boot_bytes image
  boot-image n v l u =
      sym
        (take-fill (drop (v - 16) bootsector) n _ (grind (arith, length-drop (v - 16) bootsector)))
      ∙ sym (slice-fill bootsector n (v - 16))
      ∙ slice-shift (λ i. get_or bootsector i 0) 16 n v l
      ∙ slice-ext (λ i. get_or bootsector (i - 16) 0) image n v (λ i low up. ground arith)

  pub file-image :
      (n v : ℕ)
      → boot_end_at ≤ v
      → v + n ≤ boot_end_at + length bytes
      → take n (drop (v - boot_end_at) bytes) ≡ slice image n v
  unfolding image
  file-image n v l u =
      take-slice bytes n (v - boot_end_at) (omega arith)
      ∙ slice-shift (λ i. get_or bytes i 0) boot_end_at n v l
      ∙ slice-ext (λ i. get_or bytes (i - boot_end_at) 0) image n v (λ i low up. ground arith)

  pub padding-image : (n v : ℕ) → boot_end_at + length bytes ≤ v → replicate n 0 ≡ slice image n v
  unfolding image
  padding-image n v l =
      sym (slice_zeros n v) ∙ slice-ext (λ i. 0) image n v (λ i low up. ground arith)

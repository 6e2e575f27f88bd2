-- ===== src/Strl.antt =====
-- src/strlcpy.c, src/strlcat.c: the bounded copies. A string is the list of its bytes, without the
-- terminator; `siz` is the size of the destination, terminator included.
use tnfsd.Base.{
  ℕ, zero, suc, List, [], ◌∷◌, ◌++◌, ◌-◌, ◌<◌, ◌==◌, ◌≡◌, refl, arith, if◌then◌else◌, length, take,
  min, take-append_long,
}

-- the loop of `strlcpy`, with `n` bytes of room
copy_bytes : List ℕ → ℕ → List ℕ
copy_bytes [] n = []
copy_bytes (c ∷ s) n = if n - 1 == 0 then [] else c ∷ copy_bytes s (n - 1)

-- What the destination holds.
pub strlcpy : List ℕ → ℕ → List ℕ
unfolding copy_bytes
strlcpy src siz = if siz == 0 then [] else copy_bytes src siz

-- the loop of `strlcat`, which leaves one byte for the terminator
append_bytes : List ℕ → ℕ → List ℕ
append_bytes [] n = []
append_bytes (c ∷ s) n = if n == 1 then append_bytes s n else c ∷ append_bytes s (n - 1)

unfoldable pub strlcat : List ℕ → List ℕ → ℕ → List ℕ
unfolding append_bytes
strlcat dst src siz =
    let dlen = min (length dst) siz in
    if siz - dlen == 0 then dst else dst ++ append_bytes src (siz - dlen)

copy_bytes-take : (src : List ℕ) (n : ℕ) → copy_bytes src (suc n) ≡ take n src
unfolding copy_bytes
copy_bytes-take [] zero = refl
copy_bytes-take [] (suc n) = refl
copy_bytes-take (c ∷ s) zero = ground arith
copy_bytes-take (c ∷ s) (suc n) = ground (arith, copy_bytes-take s n)

append_bytes_one : (src : List ℕ) → append_bytes src 1 ≡ []
unfolding append_bytes
append_bytes_one [] = refl
append_bytes_one (c ∷ s) = append_bytes_one s

append_bytes-take : (src : List ℕ) (n : ℕ) → append_bytes src (suc n) ≡ take n src
unfolding append_bytes
append_bytes-take [] zero = refl
append_bytes-take [] (suc n) = refl
append_bytes-take (c ∷ s) zero = append_bytes_one s
append_bytes-take (c ∷ s) (suc n) = ground (arith, append_bytes-take s n)

-- `strlcpy` into a buffer of `siz` bytes, one at least, keeps the first `siz - 1` bytes.
pub strlcpy-take : (src : List ℕ) (siz : ℕ) → 0 < siz → strlcpy src siz ≡ take (siz - 1) src
unfolding strlcpy
strlcpy-take src zero h = absurd (omega arith)
strlcpy-take src (suc n) h = ground (arith, copy_bytes-take src n)

-- `strlcat` onto a string that fits the buffer with its terminator keeps the first `siz - 1` bytes
-- of the two together.
pub strlcat-take :
    (dst src : List ℕ) (siz : ℕ)
    → length dst < siz
    → strlcat dst src siz ≡ take (siz - 1) (dst ++ src)
unfolding strlcat
strlcat-take dst src siz h = ground (
  arith,
  append_bytes-take src (siz - 1 - length dst),
  take-append_long dst src (siz - 1 - length dst),
)

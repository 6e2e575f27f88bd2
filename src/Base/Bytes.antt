-- ===== src/Base/Bytes.antt =====
-- C strings in byte buffers. A byte is a number below 256; a buffer is the list of its bytes.
use Prim.Native.Nat.{ℕ}
use mathlib.Core.Path.{◌≡◌, refl}
use mathlib.Core.Bool.{Bool, true, false, ◌&&◌, ◌||◌}
use mathlib.Core.List.{List, [], ◌∷◌, ◌++◌}
use native.Mathlib.Omega.{arith}
use tnfsd.Base.Tests.{◌==◌, if◌then◌else◌}

-- The string at the start of a buffer: its bytes up to the terminator.
unfoldable pub cstr : List ℕ → List ℕ
cstr [] = []
cstr (x ∷ xs) = if x == 0 then [] else x ∷ cstr xs

-- Are two strings equal, byte for byte?
unfoldable pub bytes_eq : List ℕ → List ℕ → Bool
bytes_eq [] [] = true
bytes_eq [] (y ∷ ys) = false
bytes_eq (x ∷ xs) [] = false
bytes_eq (x ∷ xs) (y ∷ ys) = x == y && bytes_eq xs ys

-- Does `s` begin with `p`?
unfoldable pub starts_with : List ℕ → List ℕ → Bool
starts_with [] s = true
starts_with (p ∷ ps) [] = false
starts_with (p ∷ ps) (x ∷ xs) = p == x && starts_with ps xs

-- `strstr (s, needle) != NULL`
unfoldable pub strstr : List ℕ → List ℕ → Bool
unfolding starts_with
strstr [] needle = starts_with needle []
strstr (x ∷ xs) needle = starts_with needle (x ∷ xs) || strstr xs needle

pub eq_of_bytes_eq : (a b : List ℕ) → bytes_eq a b ≡ true → a ≡ b
unfolding bytes_eq
eq_of_bytes_eq [] [] h = refl
eq_of_bytes_eq [] (y ∷ ys) h = cc
eq_of_bytes_eq (x ∷ xs) [] h = cc
eq_of_bytes_eq (x ∷ xs) (y ∷ ys) h = ground (arith, eq_of_bytes_eq xs ys)

pub bytes_eq_refl : (a : List ℕ) → bytes_eq a a ≡ true
unfolding bytes_eq
bytes_eq_refl [] = refl
bytes_eq_refl (x ∷ xs) = ground (arith, bytes_eq_refl xs)

starts_with-append : (n a b : List ℕ) → starts_with n a ≡ true → starts_with n (a ++ b) ≡ true
unfolding starts_with
starts_with-append [] a b h = refl
starts_with-append (p ∷ ps) [] b h = cc
starts_with-append (p ∷ ps) (x ∷ xs) b h = ground (arith, starts_with-append ps xs b)

starts_with-nil : (n s : List ℕ) → starts_with n [] ≡ true → starts_with n s ≡ true
unfolding starts_with
starts_with-nil [] s h = refl
starts_with-nil (p ∷ ps) s h = cc

strstr_of_starts_with : (s n : List ℕ) → starts_with n s ≡ true → strstr s n ≡ true
unfolding strstr
strstr_of_starts_with [] n h = h
strstr_of_starts_with (x ∷ xs) n h = ground arith

-- A string that contains another one contains it also with something behind or in front of it.
pub strstr-append : (a b n : List ℕ) → strstr a n ≡ true → strstr (a ++ b) n ≡ true
unfolding strstr
strstr-append [] b n h = strstr_of_starts_with b n (starts_with-nil n b h)
strstr-append (x ∷ xs) b n h = ground (arith, strstr-append xs b n, starts_with-append n (x ∷ xs) b)

pub strstr-append_right : (a b n : List ℕ) → strstr b n ≡ true → strstr (a ++ b) n ≡ true
unfolding strstr
strstr-append_right [] b n h = h
strstr-append_right (x ∷ xs) b n h = ground (arith, strstr-append_right xs b n)

-- So a string without it has it in none of its parts.
pub strstr-append_false :
    (a b n : List ℕ) → strstr (a ++ b) n ≡ false → (strstr a n ≡ false) × (strstr b n ≡ false)
strstr-append_false a b n h = ground (arith, strstr-append a b n, strstr-append_right a b n)

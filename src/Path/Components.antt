-- ===== src/Path/Components.antt =====
-- src/directory.c, `normalize_path`: what a path names is the list of its components, the non-empty
-- strings between its slashes.
use tnfsd.Base.{
  ℕ, Bool, true, false, List, [], ◌∷◌, ◌++◌, ◌≤◌, ◌==◌, ◌≡◌, ◌<◌, ◌-◌, refl, inl, inr, arith, ltb,
  if◌then◌else◌, length, Bool-cases,
}
use tnfsd.Path.{squeeze, normalize_path}

-- A component ends: it counts if it is not empty.
abbrev pub close_part : List ℕ → List (List ℕ) → List (List ℕ)
close_part [] l = l
close_part (c ∷ cs) l = (c ∷ cs) ∷ l

-- The components of a path, the first of them begun with `part`.
unfoldable pub parts_from : List ℕ → List ℕ → List (List ℕ)
parts_from part [] = close_part part []
parts_from part (c ∷ cs) =
    if c == b'/' then close_part part (parts_from [] cs) else parts_from (part ++ (c ∷ [])) cs

unfoldable pub components : List ℕ → List (List ℕ)
unfolding parts_from
components p = parts_from [] p

-- No two slashes stand side by side.
pub has_double_slash : Bool → List ℕ → Bool
has_double_slash slash [] = false
has_double_slash slash (c ∷ cs) =
    if c == b'/'
    then (if slash then true else has_double_slash true cs)
    else has_double_slash false cs

mutual
  unfolding parts_from squeeze

  parts_from-squeeze : (p part : List ℕ) → parts_from part (squeeze false p) ≡ parts_from part p
  parts_from-squeeze [] part = refl
  parts_from-squeeze (c ∷ cs) part =
      ground (arith, parts_from-squeeze cs (part ++ (c ∷ [])), parts_from-squeeze_slash cs)

  parts_from-squeeze_slash : (p : List ℕ) → parts_from [] (squeeze true p) ≡ parts_from [] p
  parts_from-squeeze_slash [] = refl
  parts_from-squeeze_slash (c ∷ cs) =
      ground (arith, parts_from-squeeze cs (c ∷ []), parts_from-squeeze_slash cs)

-- A normalised path has the components of the path it was made from.
pub components-normalize_path :
    (p : List ℕ) (bufsz : ℕ) → 1 < bufsz → components (normalize_path p bufsz) ≡ components p
unfolding components normalize_path
components-normalize_path p bufsz h = ground (arith, parts_from-squeeze p [])

has_double_slash-squeeze :
    (slash : Bool) (p : List ℕ) → has_double_slash slash (squeeze slash p) ≡ false
unfolding has_double_slash squeeze
has_double_slash-squeeze slash [] = refl
has_double_slash-squeeze true (c ∷ cs) =
    ground (arith, has_double_slash-squeeze true cs, has_double_slash-squeeze false cs)
has_double_slash-squeeze false (c ∷ cs) =
    ground (arith, has_double_slash-squeeze true cs, has_double_slash-squeeze false cs)

squeeze_fixed : (slash : Bool) (p : List ℕ) → has_double_slash slash p ≡ false → squeeze slash p ≡ p
unfolding has_double_slash squeeze
squeeze_fixed slash [] h = refl
squeeze_fixed true (c ∷ cs) h = ground (arith, squeeze_fixed true cs, squeeze_fixed false cs)
squeeze_fixed false (c ∷ cs) h = ground (arith, squeeze_fixed true cs, squeeze_fixed false cs)

length-squeeze : (slash : Bool) (p : List ℕ) → length (squeeze slash p) ≤ length p
unfolding squeeze
length-squeeze slash [] = omega arith
length-squeeze true (c ∷ cs) = ground (arith, length-squeeze true cs, length-squeeze false cs)
length-squeeze false (c ∷ cs) = ground (arith, length-squeeze true cs, length-squeeze false cs)

-- `normalize_path` with a buffer of two bytes or more: the result is no longer than the path, so it
-- may be written over it; it holds no two slashes in a row; and normalising it again changes nothing.
pub normalize_path_lem :
    (p : List ℕ) (bufsz : ℕ)
    → 1 < bufsz
    → (length (normalize_path p bufsz) ≤ length p)
      × (has_double_slash false (normalize_path p bufsz) ≡ false)
      × (normalize_path (normalize_path p bufsz) bufsz ≡ normalize_path p bufsz)
unfolding normalize_path
normalize_path_lem p bufsz h = elim (Bool-cases (ltb 0 (bufsz - 1))) [
  | inl big ↦ rw big (
    length-squeeze false p,
    has_double_slash-squeeze false p,
    squeeze_fixed false (squeeze false p) (has_double_slash-squeeze false p),
  )
  | inr small ↦ absurd (ground arith)
]

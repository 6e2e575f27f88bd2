-- ===== src/DirList/Sort.antt =====
-- src/directory.c: the merge sort of directory entries loses and invents nothing, and puts the
-- entries in order.
use mathlib.Core.List.{Perm, perm_middle}
use mathlib.Core.List.Perm
use tnfsd.Base.{
  ℕ, zero, suc, true, false, List, [], ◌∷◌, ◌++◌, ◌-◌, ◌≤◌, ◌<◌, ◌^◌, ◌≡◌, refl, subst, arith,
  length, All, take, drop, length-drop, length-take, inl, inr, Bool-cases, take-append-drop,
  append-nil,
}
use tnfsd.Tnfs.{DirEntry}
use tnfsd.Atari.{tolower}
use tnfsd.DirList.{
  reverse_sign, difference, compare_bytes, ascending, goes_first, mergesort_merge, middle,
  mergesort, dirlist_sort,
}

module _ (sortopts : ℕ) where
  merge-perm : (l r : List DirEntry) → Perm (mergesort_merge sortopts l r) (l ++ r)
  unfolding mergesort_merge
  merge-perm [] r = Perm.refl r
  merge-perm (x ∷ xs) [] = rw append-nil (Perm.refl (x ∷ xs))
  merge-perm (x ∷ xs) (y ∷ ys) = elim (Bool-cases (goes_first sortopts x y)) [
    | inl first ↦ rw (first, mergesort_merge) (Perm.cons x (merge-perm xs (y ∷ ys)))
    | inr later ↦
        rw (later, mergesort_merge)
          (Perm.trans (Perm.cons y (merge-perm (x ∷ xs) ys)) (Perm.symm (perm_middle (x ∷ xs) ys)))
  ]

  mergesort-perm : (fuel : ℕ) (l : List DirEntry) → Perm (mergesort sortopts fuel l) l
  unfolding mergesort
  mergesort-perm fuel [] = Perm.refl []
  mergesort-perm fuel (e ∷ []) = Perm.refl (e ∷ [])
  mergesort-perm zero (e ∷ f ∷ rest) = Perm.refl (e ∷ f ∷ rest)
  mergesort-perm (suc fuel) (e ∷ f ∷ rest) =
      let l = e ∷ f ∷ rest in
      let mid = suc (middle l) in
      let left = mergesort sortopts fuel (take mid l) in
      let right = mergesort sortopts fuel (drop mid l) in
      let halves =
        Perm.append (mergesort-perm fuel (take mid l)) (mergesort-perm fuel (drop mid l)) in
      Perm.trans (merge-perm left right)
        (subst (λ k. Perm (left ++ right) k) (take-append-drop mid l) halves)

  -- Sorting a directory's entries rearranges them: none is lost, and none comes twice.
  pub dirlist_sort-perm : (l : List DirEntry) → Perm (dirlist_sort sortopts l) l
  unfolding dirlist_sort
  dirlist_sort-perm l = mergesort-perm (length l) l

  -- The entry `z` may stand before the list: the first entry of the list does not go before it.
  abbrev pub HeadOk : DirEntry → List DirEntry → Type 0
  HeadOk z [] = Unit
  HeadOk z (y ∷ ys) = goes_first sortopts y z ≡ false

  -- Of two neighbours the second does not go before the first.
  abbrev pub InOrder : List DirEntry → Type 0
  InOrder [] = Unit
  InOrder (x ∷ l) = HeadOk x l × InOrder l

-- The size and the time read as an `int` without a change of sign.
abbrev pub IsSmall : DirEntry → Type 0
IsSmall e = (e.size < 2 ^ 31) × (e.mtime < 2 ^ 31)

compare_bytes-asym :
    (key : ℕ → ℕ) (a b : List ℕ) → compare_bytes key b a ≡ reverse_sign (compare_bytes key a b)
unfolding compare_bytes reverse_sign
compare_bytes-asym key [] [] = refl
compare_bytes-asym key [] (d ∷ ds) = refl
compare_bytes-asym key (c ∷ cs) [] = refl
compare_bytes-asym key (c ∷ cs) (d ∷ ds) = ground (arith, compare_bytes-asym key cs ds)

difference-asym :
    (a b : ℕ) → a < 2 ^ 31 → b < 2 ^ 31 → difference b a ≡ reverse_sign (difference a b)
unfolding difference reverse_sign
difference-asym a b ha hb = ground arith

module _ (sortopts : ℕ) where
  ascending-asym :
      (a b : DirEntry)
      → IsSmall a
      → IsSmall b
      → ascending sortopts b a ≡ reverse_sign (ascending sortopts a b)
  unfolding ascending
  ascending-asym a b ha hb = ground (
    arith,
    difference-asym a.size b.size,
    difference-asym a.mtime b.mtime,
    compare_bytes-asym (λ c. c) a.entrypath b.entrypath,
    compare_bytes-asym tolower a.entrypath b.entrypath,
  )

  goes_first-asym :
      (a b : DirEntry)
      → IsSmall a
      → IsSmall b
      → goes_first sortopts a b ≡ true
      → goes_first sortopts b a ≡ false
  unfolding goes_first
  goes_first-asym a b ha hb h = ground (arith, ascending-asym a b ha hb)

  merge-HeadOk :
      (z : DirEntry) (l r : List DirEntry)
      → HeadOk sortopts z l
      → HeadOk sortopts z r
      → HeadOk sortopts z (mergesort_merge sortopts l r)
  unfolding mergesort_merge
  merge-HeadOk z [] r hl hr = hr
  merge-HeadOk z (x ∷ xs) [] hl hr = hl
  merge-HeadOk z (x ∷ xs) (y ∷ ys) hl hr = elim (Bool-cases (goes_first sortopts x y)) [
    | inl first ↦ rw (first, mergesort_merge) hl
    | inr later ↦ rw (later, mergesort_merge) hr
  ]

  merge-InOrder :
      (l r : List DirEntry)
      → All IsSmall l
      → All IsSmall r
      → InOrder sortopts l
      → InOrder sortopts r
      → InOrder sortopts (mergesort_merge sortopts l r) × All IsSmall (mergesort_merge sortopts l r)
  unfolding mergesort_merge
  merge-InOrder [] r sl sr hl hr = (hr, sr)
  merge-InOrder (x ∷ xs) [] sl sr hl hr = (hl, sl)
  merge-InOrder (x ∷ xs) (y ∷ ys) sl sr hl hr = elim (Bool-cases (goes_first sortopts x y)) [
    | inl first ↦
        let ih = merge-InOrder xs (y ∷ ys) sl.1 sr hl.1 hr in
        rw (first, mergesort_merge)
          (
            (merge-HeadOk x xs (y ∷ ys) hl.0 (goes_first-asym x y sl.0 sr.0 first), ih.0),
            (sl.0, ih.1),
          )
    | inr later ↦
        let ih = merge-InOrder (x ∷ xs) ys sl sr.1 hl hr.1 in
        rw (later, mergesort_merge) ((merge-HeadOk y (x ∷ xs) ys later hr.0, ih.0), (sr.0, ih.1))
  ]

pub middle-le : (l : List DirEntry) → middle l ≤ length l - 2
unfolding middle
middle-le [] = omega arith
middle-le (a ∷ []) = omega arith
middle-le (a ∷ b ∷ []) = omega arith
middle-le (a ∷ b ∷ c ∷ rest) = omega (arith, middle-le (c ∷ rest))

All-take : (n : ℕ) (l : List DirEntry) → All IsSmall l → All IsSmall (take n l)
All-take zero l h = tt
All-take (suc n) [] h = tt
All-take (suc n) (e ∷ l) h = (h.0, All-take n l h.1)

All-drop : (n : ℕ) (l : List DirEntry) → All IsSmall l → All IsSmall (drop n l)
All-drop zero l h = h
All-drop (suc n) [] h = tt
All-drop (suc n) (e ∷ l) h = All-drop n l h.1

mergesort-InOrder :
    (sortopts fuel : ℕ) (l : List DirEntry)
    → length l ≤ suc fuel
    → All IsSmall l
    → InOrder sortopts (mergesort sortopts fuel l) × All IsSmall (mergesort sortopts fuel l)
unfolding mergesort
mergesort-InOrder sortopts fuel [] h s = (tt, tt)
mergesort-InOrder sortopts fuel (e ∷ []) h s = ((tt, tt), s)
mergesort-InOrder sortopts zero (e ∷ f ∷ rest) h s = absurd (omega arith)
mergesort-InOrder sortopts (suc fuel) (e ∷ f ∷ rest) h s =
    let l = e ∷ f ∷ rest in
    let mid = suc (middle l) in
    let left =
      mergesort-InOrder sortopts fuel (take mid l) (omega (arith, length-take mid l, middle-le l))
        (All-take mid l s) in
    let right =
      mergesort-InOrder sortopts fuel (drop mid l) (omega (arith, length-drop mid l))
        (All-drop mid l s) in
    merge-InOrder sortopts (mergesort sortopts fuel (take mid l))
      (mergesort sortopts fuel (drop mid l)) left.1 right.1 left.0 right.0

-- A sorted directory is in the order that the sort options ask for, if its sizes and times are below
-- 2 ^ 31: no entry goes before the one in front of it.
pub dirlist_sort-InOrder :
    (sortopts : ℕ) (l : List DirEntry) → All IsSmall l → InOrder sortopts (dirlist_sort sortopts l)
unfolding dirlist_sort
dirlist_sort-InOrder sortopts l s = (mergesort-InOrder sortopts (length l) l (omega arith) s).0

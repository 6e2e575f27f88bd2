-- ===== src/DirList/Fuel.antt =====
-- src/directory.c, `_mergesort`: the recursion ends.
use tnfsd.Base.{
  ℕ, zero, suc, List, [], ◌∷◌, ◌≤◌, ◌+◌, ◌*◌, ◌^◌, ◌↔◌, ◌∙◌, sym, subst, ◌≡◌, refl, ap₂, arith,
  length, take, drop, length-take, length-drop,
}
use tnfsd.Tnfs.{DirEntry}
use tnfsd.DirList.{mergesort, mergesort_merge, middle, dirlist_sort}
use tnfsd.DirList.Sort.{middle-le}

-- More levels than a list has entries change nothing.
mergesort-fuel :
    (sortopts fuel more : ℕ) (l : List DirEntry)
    → length l ≤ suc fuel
    → length l ≤ suc more
    → mergesort sortopts fuel l ≡ mergesort sortopts more l
unfolding mergesort
mergesort-fuel sortopts fuel more [] h g = refl
mergesort-fuel sortopts fuel more (e ∷ []) h g = refl
mergesort-fuel sortopts zero more (e ∷ f ∷ rest) h g = absurd (omega arith)
mergesort-fuel sortopts (suc fuel) zero (e ∷ f ∷ rest) h g = absurd (omega arith)
mergesort-fuel sortopts (suc fuel) (suc more) (e ∷ f ∷ rest) h g =
    let l : List DirEntry = e ∷ f ∷ rest in
    let mid = suc (middle l) in
    ap₂ (mergesort_merge sortopts)
      (mergesort-fuel sortopts fuel more (take mid l)
        (omega (arith, length-take mid l, middle-le l))
        (omega (arith, length-take mid l, middle-le l)))
      (mergesort-fuel sortopts fuel more (drop mid l) (omega (arith, length-drop mid l))
        (omega (arith, length-drop mid l)))

-- A list of two entries or more is the merge of its two halves, each sorted by the whole sort.
dirlist_sort-halves :
    (sortopts : ℕ) (e f : DirEntry) (rest : List DirEntry)
    → dirlist_sort sortopts (e ∷ f ∷ rest)
      ≡ mergesort_merge sortopts
          (dirlist_sort sortopts (take (suc (middle (e ∷ f ∷ rest))) (e ∷ f ∷ rest)))
          (dirlist_sort sortopts (drop (suc (middle (e ∷ f ∷ rest))) (e ∷ f ∷ rest)))
unfolding mergesort dirlist_sort
dirlist_sort-halves sortopts e f rest =
    let l : List DirEntry = e ∷ f ∷ rest in
    let mid = suc (middle l) in
    let left = length-take mid l in
    let right = length-drop mid l in
    ap₂ (mergesort_merge sortopts)
      (mergesort-fuel sortopts (suc (length rest)) (length (take mid l)) (take mid l)
        (omega (arith, left, middle-le l)) (omega arith))
      (mergesort-fuel sortopts (suc (length rest)) (length (drop mid l)) (drop mid l)
        (omega (arith, right)) (omega arith))

-- `_mergesort`, with no bound on its recursion: that of the list ends, at most so many calls deep,
-- with the other list.
pub data Sorts (sortopts : ℕ) : ℕ → List DirEntry → List DirEntry → Type 0 where
  nothing : {depth : ℕ} → Sorts sortopts depth [] []
  single : {depth : ℕ} (e : DirEntry) → Sorts sortopts depth (e ∷ []) (e ∷ [])
  halves :
      {depth : ℕ} (e f : DirEntry) (rest list_left list_right : List DirEntry)
      → Sorts sortopts depth (take (suc (middle (e ∷ f ∷ rest))) (e ∷ f ∷ rest)) list_left
      → Sorts sortopts depth (drop (suc (middle (e ∷ f ∷ rest))) (e ∷ f ∷ rest)) list_right
      → Sorts sortopts (suc depth) (e ∷ f ∷ rest) (mergesort_merge sortopts list_left list_right)

-- The left half has as many entries as the right one, or one more.
middle-half :
    (l : List DirEntry)
    → 2 ≤ length l
    → (2 * suc (middle l) ≤ length l + 1) × (length l ≤ 2 * suc (middle l))
unfolding middle
middle-half [] h = absurd (omega arith)
middle-half (a ∷ []) h = absurd (omega arith)
middle-half (a ∷ b ∷ []) h = (omega arith, omega arith)
middle-half (a ∷ b ∷ c ∷ []) h = (omega arith, omega arith)
middle-half (a ∷ b ∷ c ∷ d ∷ rest) h =
    let q = middle-half (c ∷ d ∷ rest) (omega arith) in (omega (arith, q.0), omega (arith, q.1))

mergesort-Sorts :
    (sortopts fuel depth : ℕ) (l : List DirEntry)
    → length l ≤ suc fuel
    → length l ≤ 2 ^ depth
    → Sorts sortopts depth l (mergesort sortopts fuel l)
unfolding mergesort
mergesort-Sorts sortopts fuel depth [] h g = Sorts.nothing
mergesort-Sorts sortopts fuel depth (e ∷ []) h g = Sorts.single e
mergesort-Sorts sortopts zero depth (e ∷ f ∷ rest) h g = absurd (omega arith)
mergesort-Sorts sortopts (suc fuel) zero (e ∷ f ∷ rest) h g = absurd (omega arith)
mergesort-Sorts sortopts (suc fuel) (suc depth) (e ∷ f ∷ rest) h g =
    let l : List DirEntry = e ∷ f ∷ rest in
    let mid = suc (middle l) in
    let q = middle-half l (omega arith) in
    let twice : 2 ^ suc depth ≡ 2 * 2 ^ depth = omega arith in
    Sorts.halves e f rest _ _
      (mergesort-Sorts sortopts fuel depth (take mid l) (omega (arith, q, length-take mid l))
        (omega (arith, q, twice, length-take mid l)))
      (mergesort-Sorts sortopts fuel depth (drop mid l) (omega (arith, q, length-drop mid l))
        (omega (arith, q, twice, length-drop mid l)))

Sorts-dirlist_sort :
    (sortopts depth : ℕ) (l r : List DirEntry)
    → Sorts sortopts depth l r
    → r ≡ dirlist_sort sortopts l
unfolding dirlist_sort mergesort
Sorts-dirlist_sort sortopts depth _ _ Sorts.nothing = refl
Sorts-dirlist_sort sortopts depth _ _ (Sorts.single e) = refl
Sorts-dirlist_sort sortopts _ _ _ (Sorts.halves e f rest left right p q) =
    ap₂ (mergesort_merge sortopts) (Sorts-dirlist_sort sortopts _ _ left p)
      (Sorts-dirlist_sort sortopts _ _ right q)
    ∙ sym (dirlist_sort-halves sortopts e f rest)

-- The sort of a list of 2 ^ depth entries or fewer: the recursion of `_mergesort`, at most `depth`
-- calls deep, ends with a list if, and only if, that is what `dirlist_sort` gives.
pub dirlist_sort-Sorts :
    (sortopts depth : ℕ) (l r : List DirEntry)
    → length l ≤ 2 ^ depth
    → Sorts sortopts depth l r ↔ (r ≡ dirlist_sort sortopts l)
unfolding dirlist_sort
dirlist_sort-Sorts sortopts depth l r h = (
  Sorts-dirlist_sort sortopts depth l r,
  λ e.
      subst (Sorts sortopts depth l) (sym e)
        (mergesort-Sorts sortopts (length l) depth l (omega arith) h),
)

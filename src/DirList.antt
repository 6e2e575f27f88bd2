-- ===== src/DirList.antt =====
-- src/directory.c: the linked lists of directory entries, and their merge sort. A pointer to a node
-- is the list from that node on; NULL is the empty list.
pub mod Position
pub mod Sort
pub mod Fuel
use tnfsd.Base.{
  ℕ, zero, suc, Bool, true, false, List, [], ◌∷◌, ◌++◌, ◌+◌, ◌-◌, ◌%◌, ◌^◌, ◌==◌, ltb,
  if◌then◌else◌, bit, length, take, drop,
}
use tnfsd.Atari.{tolower}
use tnfsd.Tnfs.{DirEntry}

unfoldable pub dirlist_push : List DirEntry → DirEntry → List DirEntry
dirlist_push dlist node = node ∷ dlist

unfoldable pub dirlist_concat : List DirEntry → List DirEntry → List DirEntry
dirlist_concat [] list2 = list2
dirlist_concat (e ∷ list1) list2 = e ∷ dirlist_concat list1 list2

-- `index` of the clauses is what is left of it when the loop reaches the node.
unfoldable pub dirlist_get_node_at_index : List DirEntry → ℕ → List DirEntry
dirlist_get_node_at_index [] index = []
dirlist_get_node_at_index (e ∷ rest) zero = e ∷ rest
dirlist_get_node_at_index (e ∷ rest) (suc index) = dirlist_get_node_at_index rest index

-- Of two nodes of one list, or NULL, are they the same? They are if as much follows them.
unfoldable pub same_node : List DirEntry → List DirEntry → Bool
same_node p q = length p == length q

-- the loop of `dirlist_get_index_for_node`
unfoldable pub index_from : List DirEntry → List DirEntry → ℕ → ℕ
unfolding same_node
index_from [] node i = i
index_from (e ∷ rest) node i = if same_node (e ∷ rest) node then i else index_from rest node (suc i)

unfoldable pub dirlist_get_index_for_node : List DirEntry → List DirEntry → ℕ
unfolding index_from
dirlist_get_index_for_node dlist node = index_from dlist node 0

-- The sign of the `int` that the comparison computes.
pub data Sign : Type 0 where
  negative null positive : Sign

-- `r *= -1`; at the least `int`, a difference of 2 ^ 31, the source overflows, which C leaves
-- undefined
unfoldable pub reverse_sign : Sign → Sign
reverse_sign negative = positive
reverse_sign null = null
reverse_sign positive = negative

-- the sign of `a - b`, computed in 32 bits and read as an `int`
unfoldable pub difference : ℕ → ℕ → Sign
difference a b =
    let d = (a + 2 ^ 32 - b) % 2 ^ 32 in
    if d == 0 then null else if ltb d (2 ^ 31) then positive else negative

-- `strcmp` and `strcasecmp`, as far as the sign goes; `key` is what is compared of a byte
unfoldable pub compare_bytes : (ℕ → ℕ) → List ℕ → List ℕ → Sign
compare_bytes key [] [] = null
compare_bytes key [] (d ∷ ds) = negative
compare_bytes key (c ∷ cs) [] = positive
compare_bytes key (c ∷ cs) (d ∷ ds) =
    if ltb (key c) (key d)
    then negative
    else if ltb (key d) (key c)
    then positive
    else compare_bytes key cs ds

unfoldable pub ascending : ℕ → DirEntry → DirEntry → Sign
unfolding difference compare_bytes tolower
ascending sortopts left right =
    if bit sortopts 4
    then difference left.size right.size
    else if bit sortopts 3
    then difference left.mtime right.mtime
    else if bit sortopts 1
    then compare_bytes (λ c. c) left.entrypath right.entrypath
    else compare_bytes tolower left.entrypath right.entrypath

-- Does the left entry go first? `r < 0` of the source.
unfoldable pub goes_first : ℕ → DirEntry → DirEntry → Bool
unfolding ascending reverse_sign
goes_first sortopts left right =
    let r = ascending sortopts left right in
    elim (if bit sortopts 2 then reverse_sign r else r) [
      | negative ↦ true
      | null ↦ false
      | positive ↦ false
    ]

unfoldable pub mergesort_merge : ℕ → List DirEntry → List DirEntry → List DirEntry
mergesort_merge sortopts [] list_right = list_right
mergesort_merge sortopts (x ∷ xs) [] = x ∷ xs
mergesort_merge sortopts (x ∷ xs) (y ∷ ys) = elim (goes_first sortopts x y) [
  | true ↦ x ∷ mergesort_merge sortopts xs (y ∷ ys)
  | false ↦ y ∷ mergesort_merge sortopts (x ∷ xs) ys
]

-- How many nodes stand before the one that `_mergesort_get_middle` returns: `fast` goes two nodes at
-- a time.
unfoldable pub middle : List DirEntry → ℕ
middle (a ∷ b ∷ c ∷ rest) = suc (middle (c ∷ rest))
middle fast = 0

-- The left half ends with the middle node. A list of `n` entries takes less than `n` levels.
unfoldable pub mergesort : ℕ → ℕ → List DirEntry → List DirEntry
unfolding mergesort_merge middle
mergesort sortopts fuel [] = []
mergesort sortopts fuel (e ∷ []) = e ∷ []
mergesort sortopts zero (e ∷ f ∷ rest) = e ∷ f ∷ rest
mergesort sortopts (suc fuel) (e ∷ f ∷ rest) =
    let mid = suc (middle (e ∷ f ∷ rest)) in
    mergesort_merge sortopts (mergesort sortopts fuel (take mid (e ∷ f ∷ rest)))
      (mergesort sortopts fuel (drop mid (e ∷ f ∷ rest)))

unfoldable pub dirlist_sort : ℕ → List DirEntry → List DirEntry
unfolding mergesort
dirlist_sort sortopts dlist = mergesort sortopts (length dlist) dlist

-- ===== src/DirList/Position.antt =====
-- src/directory.c: TELLDIR and SEEKDIR positions in a loaded directory.
use tnfsd.Base.{
  ℕ, zero, suc, List, [], ◌∷◌, ◌+◌, ◌-◌, ◌≤◌, ◌≡◌, refl, arith, length, min, drop, length-drop,
}
use tnfsd.Tnfs.{DirEntry}
use tnfsd.DirList.{dirlist_get_node_at_index, dirlist_get_index_for_node, index_from, same_node}

-- The node at an index is what is left of the list after that many entries.
pub dirlist_get_node_at_index-drop :
    (l : List DirEntry) (i : ℕ) → dirlist_get_node_at_index l i ≡ drop i l
unfolding dirlist_get_node_at_index
dirlist_get_node_at_index-drop [] zero = refl
dirlist_get_node_at_index-drop [] (suc i) = refl
dirlist_get_node_at_index-drop (e ∷ l) zero = refl
dirlist_get_node_at_index-drop (e ∷ l) (suc i) = dirlist_get_node_at_index-drop l i

index_from_lem :
    (l node : List DirEntry) (i : ℕ)
    → length node ≤ length l
    → index_from l node i ≡ i + (length l - length node)
unfolding index_from same_node
index_from_lem [] node i h = omega arith
index_from_lem (e ∷ l) node i h = ground (arith, index_from_lem l node (suc i))

-- A position sought in a loaded directory is the position told: the index of the node at an index is
-- that index, or the number of entries if there is no such node.
pub dirlist_get_index_for_node-dirlist_get_node_at_index :
    (l : List DirEntry) (i : ℕ)
    → dirlist_get_index_for_node l (dirlist_get_node_at_index l i) ≡ min i (length l)
unfolding dirlist_get_index_for_node
dirlist_get_index_for_node-dirlist_get_node_at_index l i =
    rw (dirlist_get_node_at_index-drop l i) (
      omega
        (arith, index_from_lem l (drop i l) 0 (omega (arith, length-drop i l)), length-drop i l))

-- ===== src/LinkedList/Examples.antt =====
-- Runs of the list functions on a concrete memory, and their theorems there.
use librfn.Common.{ℕ, ◌≡◌, refl, true, List, [], ◌∷◌, ◌++◌, arith, ◌==◌, if◌then◌else◌, leb}
use librfn.Common.Int.{ℤ, pos, negsuc}
use librfn.LinkedList.{remove, insert_sorted}
use librfn.LinkedList.Heap.{Ptr, Heap, Returns, ◌>>◌}
use librfn.LinkedList.Links.{has}
use librfn.LinkedList.IsList.{IsList, IsFree}
use librfn.LinkedList.Insert.{Inserted}
use librfn.LinkedList.Search.{Outcome, remove_lem}
use librfn.LinkedList.Keys.{SortedBy, Compares, Placed, insert_sorted_lem}

-- The list at 1 has the nodes 2 and 4; the node 3 is free.
abbrev links : Ptr → Ptr
links p = if p == 1 then 2 else (if p == 2 then 4 else 0)

abbrev heap : Heap
heap = record { next = links; tail = λ _. 4 }

abbrev nodes : List Ptr
nodes = 2 ∷ 4 ∷ []

heap-IsList : IsList heap 1 nodes
heap-IsList = record {
  not_null = omega arith;
  distinct = (refl, (refl, (refl, tt)));
  links = (refl, omega arith, (refl, omega arith, refl));
  tail_at = refl;
}

three-IsFree : IsFree heap 1 nodes 3
three-IsFree = record { node_not_null = omega arith; unlinked = refl; outside = refl }

remove_lem_example :
    Returns (λ b g. (b ≡ has 4 nodes) × Outcome heap 1 4 nodes (has 4 nodes) g) (remove 3 1 4 heap)
remove_lem_example = remove_lem 4 3 heap-IsList (omega arith)

-- A comparison of the nodes by their addresses.
abbrev by_address : Ptr → Ptr → ℤ
by_address a b = if leb b a then pos 1 else negsuc 0

same_key : Ptr → ℕ
same_key p = p

nodes-SortedBy : SortedBy same_key nodes
unfolding same_key
nodes-SortedBy = (λ y i. ground arith, (λ y i. ground arith, tt))

by_address-Compares : Compares by_address same_key (3 ∷ nodes)
unfolding same_key
by_address-Compares a b i j = ground arith

insert_sorted_lem_example :
    (pre : List Ptr) × (post : List Ptr) × (nodes ≡ pre ++ post)
    × Placed same_key 3 pre post
    × Returns (Inserted heap 1 3 pre post) (insert_sorted by_address 3 1 3 heap)
insert_sorted_lem_example =
    insert_sorted_lem same_key by_address 3 heap-IsList three-IsFree nodes-SortedBy
      by_address-Compares (omega arith)

-- The node goes into the middle, and out again.
sorted_then_removed :
    Returns
      (λ b g. (b ≡ true) × (g.next 2 ≡ 4) × (g.next 4 ≡ 0) × (g.next 3 ≡ 0))
      ((insert_sorted by_address 3 1 3 >> remove 4 1 3) heap)
unfolding insert_sorted remove
sorted_then_removed = (refl, refl, refl, refl)

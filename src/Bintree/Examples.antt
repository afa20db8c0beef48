-- ===== src/Bintree/Examples.antt =====
-- The iterators on a tree of five nodes, and the theorems on it.
use librfn.Common.{
  ℕ, ◌+◌, ◌≡◌, refl, some, arith, false, ◌||◌, List, [], ◌∷◌, ◌++◌, length, ◌==◌, if◌then◌else◌,
}
use librfn.Bintree.Memory.{Ptr, null, Nodes, Run, ok, ◌>>=◌}
use librfn.Bintree.Iterate.{
  Iterator, next_in_order, bintree_iterate_in_order, bintree_iterate_pre_order,
  bintree_iterate_post_order, bintree_iterate_list, iterated, bintree_next, predecessor,
}
use librfn.Bintree.Free.{bintree_free}
use librfn.Bintree.Shape.{Tree, nil, node, HasTree, Distinct, in_order, pre_order}
use librfn.Bintree.Traverse.{
  Visitor, bintree_traverse_in_order, bintree_traverse_pre_order, bintree_traverse_post_order,
}
use librfn.Bintree.Visits.{
  visited, in_order_visits, pre_order_visits, post_order_visits, traversals_lem,
}
use librfn.Bintree.Client.{client, marked}
use librfn.Bintree.InOrder.{iterate_in_order_lem}
use librfn.Bintree.Graph.{
  escape, escaped_length, bintree_graphviz, graph_opens, ordering_out, graph_closes,
}
use librfn.Bintree.PreOrder.{iterate_pre_order_lem}
use librfn.Bintree.Drawing.{read_quoted, graph_of, escape_lem, bintree_graphviz_lem}

-- 8 has the subtrees 4, with 2 and 6, and 10.
abbrev some_nodes : Nodes
some_nodes = record {
  left = λ p. if p == 8 then 4 else if p == 4 then 2 else 0;
  right = λ p. if p == 8 then 10 else if p == 4 then 6 else 0;
}

abbrev some_iterator : Iterator
some_iterator = record {
  next = next_in_order;
  filter = λ p. (p == 8) || (p == 4);
  curr = 0;
  parent = 0;
}

abbrev some_tree : Tree
some_tree = node (node (node nil 2 nil) 4 (node nil 6 nil)) 8 (node nil 10 nil)

some_tree-HasTree : HasTree some_nodes 8 some_tree
some_tree-HasTree = (
  refl,
  omega arith,
  (refl, omega arith, (refl, omega arith, refl, refl), (refl, omega arith, refl, refl)),
  (refl, omega arith, refl, refl),
)

some_tree-Distinct : Distinct some_tree
some_tree-Distinct = (
  refl,
  refl,
  λ p h. ground (arith, h),
  (
    refl,
    refl,
    λ p h. ground (arith, h),
    (refl, refl, λ p h. ground (arith, h), tt, tt),
    (refl, refl, λ p h. ground (arith, h), tt, tt),
  ),
  (refl, refl, λ p h. ground (arith, h), tt, tt),
)

abbrev name_of : Ptr → List ℕ
name_of p = b'"' ∷ (p + b'0') ∷ []

-- The nodes that a run gives.
abbrev given : Run (List Ptr) → List Ptr
given (ok ns m) = ns
given _ = []

iterates :
    (given ((bintree_iterate_in_order 6 some_iterator 8 >>= iterated 6 6) some_nodes)
      ≡ 2 ∷ 4 ∷ 6 ∷ 8 ∷ 10 ∷ [])
    × (given ((bintree_iterate_pre_order 6 some_iterator 8 >>= iterated 6 6) some_nodes)
        ≡ 8 ∷ 4 ∷ 2 ∷ 6 ∷ 10 ∷ [])
    × (given ((bintree_iterate_post_order 6 some_iterator 8 >>= iterated 6 6) some_nodes)
        ≡ 2 ∷ 6 ∷ 4 ∷ 10 ∷ 8 ∷ [])
    × (given (
          (bintree_iterate_list 6 some_iterator 8 some_iterator.filter >>= iterated 6 6) some_nodes)
        ≡ 2 ∷ 6 ∷ 10 ∷ [])
    × (given (bintree_free 6 some_iterator 8 some_nodes) ≡ 2 ∷ 6 ∷ 4 ∷ 10 ∷ 8 ∷ [])
unfolding bintree_iterate_in_order bintree_iterate_pre_order bintree_iterate_post_order
    bintree_iterate_list bintree_free iterated predecessor
iterates = (refl, refl, refl, refl, refl)

-- The nodes in the reverse order of the visits.
abbrev noting : Visitor (List ℕ)
noting ctx tree parent depth = tree ∷ ctx

traversals_lem_example :
    (bintree_traverse_in_order some_nodes noting 6 8 []
      ≡ some (visited noting [] (in_order_visits some_tree null 0)))
    × (bintree_traverse_pre_order some_nodes noting 6 8 []
        ≡ some (visited noting [] (pre_order_visits some_tree null 0)))
    × (bintree_traverse_post_order some_nodes noting 6 8 []
        ≡ some (visited noting [] (post_order_visits some_tree null 0)))
traversals_lem_example =
    traversals_lem noting some_nodes 6 some_tree 8 [] (omega arith) some_tree-HasTree

iterate_in_order_lem_example :
    ((iter' : Iterator) × ((bintree_iterate_in_order 6 some_iterator 8
            >>= client (bintree_next 6) (λ l. l + 1) 6)
          some_nodes
        ≡ ok (in_order some_tree, iter') (marked (λ l. l + 1) some_nodes (in_order some_tree))))
    × ((iter' : Iterator) × ((bintree_iterate_in_order 6 some_iterator 8
              >>= client (bintree_next 6) (λ l. l) 6)
            some_nodes
          ≡ ok (in_order some_tree, iter') some_nodes))
iterate_in_order_lem_example =
    iterate_in_order_lem 6 (λ l. l + 1) some_tree 6 some_iterator some_nodes 8 (omega arith)
      (omega arith) some_tree-Distinct some_tree-HasTree

escape_lem_example :
    (read_quoted false (escape (name_of 8) ++ (b'"' ∷ [])) ≡ some (name_of 8, []))
    × (length (escape (name_of 8)) + 1 ≡ escaped_length (name_of 8) + 1)
escape_lem_example = escape_lem (name_of 8) []

bintree_graphviz_lem_example :
    bintree_graphviz some_nodes 6 8 [] name_of
    ≡ some (record {
      f = (((([] ++ graph_opens) ++ ordering_out) ++ graph_of name_of some_tree) ++ graph_closes);
      labeller = name_of;
    })
bintree_graphviz_lem_example =
    bintree_graphviz_lem name_of some_nodes 6 some_tree 8 [] (omega arith) some_tree-HasTree

iterate_pre_order_lem_example :
    (iter' : Iterator) × ((bintree_iterate_pre_order 6 some_iterator 8
          >>= client (bintree_next 6) (λ l. l) 6)
        some_nodes
      ≡ ok (pre_order some_tree, iter') some_nodes)
iterate_pre_order_lem_example =
    iterate_pre_order_lem 6 some_tree 6 some_iterator some_nodes 8 (omega arith) (omega arith)
      some_tree-Distinct some_tree-HasTree

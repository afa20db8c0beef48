-- ===== src/Bintree/Traverse.antt =====
-- librfn/bintree.c: the traversals by recursion. A visitor changes its context and not the tree.
use librfn.Common.{ℕ, zero, suc, ◌+◌, Bool, ◌==◌, if◌then◌else◌, Option, none, some}
use librfn.Bintree.Memory.{Ptr, null, Nodes}

-- `bintree_visitor_t`: the context, the node, its parent and its depth.
abbrev pub Visitor : Type 0 → Type 0
Visitor C = C → Ptr → Ptr → ℕ → C

-- A context, unless the fuel ran out.
abbrev pub then_visit : {C : Type 0} → Option C → (C → Option C) → Option C
then_visit none f = none
then_visit (some c) f = f c

module _ {C : Type 0} (m : Nodes) (visitor : Visitor C) where
  unfoldable pub traverse_in_order_depth : ℕ → Ptr → Ptr → ℕ → C → Option C
  traverse_in_order_depth zero tree parent depth ctx = none
  traverse_in_order_depth (suc fuel) tree parent depth ctx =
      let subtrees =
        then_visit (traverse_in_order_depth fuel (m.left tree) tree (depth + 1) ctx) λ ctx.
          traverse_in_order_depth fuel (m.right tree) tree (depth + 1)
            (visitor ctx tree parent depth) in
      if tree == null then some (visitor ctx tree parent depth) else subtrees

  unfoldable pub bintree_traverse_in_order : ℕ → Ptr → C → Option C
  bintree_traverse_in_order fuel tree ctx = traverse_in_order_depth fuel tree null 0 ctx

  unfoldable pub traverse_post_order_depth : ℕ → Ptr → Ptr → ℕ → C → Option C
  traverse_post_order_depth zero tree parent depth ctx = none
  traverse_post_order_depth (suc fuel) tree parent depth ctx =
      let subtrees =
        then_visit (traverse_post_order_depth fuel (m.left tree) tree (depth + 1) ctx)
          λ ctx. traverse_post_order_depth fuel (m.right tree) tree (depth + 1) ctx in
      then_visit (if tree == null then some ctx else subtrees)
        λ ctx. some (visitor ctx tree parent depth)

  unfoldable pub bintree_traverse_post_order : ℕ → Ptr → C → Option C
  bintree_traverse_post_order fuel tree ctx = traverse_post_order_depth fuel tree null 0 ctx

  unfoldable pub traverse_pre_order_depth : ℕ → Ptr → Ptr → ℕ → C → Option C
  traverse_pre_order_depth zero tree parent depth ctx = none
  traverse_pre_order_depth (suc fuel) tree parent depth ctx =
      let ctx' = visitor ctx tree parent depth in
      let subtrees =
        then_visit (traverse_pre_order_depth fuel (m.left tree) tree (depth + 1) ctx')
          λ ctx. traverse_pre_order_depth fuel (m.right tree) tree (depth + 1) ctx in
      if tree == null then some ctx' else subtrees

  unfoldable pub bintree_traverse_pre_order : ℕ → Ptr → C → Option C
  bintree_traverse_pre_order fuel tree ctx = traverse_pre_order_depth fuel tree null 0 ctx

module _ {C : Type 0} (m : Nodes) (is_list : Ptr → Bool) (visitor : C → Ptr → C) where
  unfoldable pub bintree_traverse_list : ℕ → Ptr → C → Option C
  bintree_traverse_list zero tree ctx = none
  bintree_traverse_list (suc fuel) tree ctx =
      let subtrees =
        then_visit (bintree_traverse_list fuel (m.left tree) ctx)
          λ ctx. bintree_traverse_list fuel (m.right tree) ctx in
      if tree == null then some ctx else if is_list tree then subtrees else some (visitor ctx tree)

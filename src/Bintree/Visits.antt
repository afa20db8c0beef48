-- ===== src/Bintree/Visits.antt =====
-- The traversals make the visits that the tree as data prescribes, in their order.
use librfn.Common.{
  ℕ, zero, suc, ◌+◌, ◌≡◌, ◌<◌, refl, sym, ap, ◌∙◌, Bool, some, List, [], ◌∷◌, ◌++◌, arith, ne→==,
  Bool-cases, inl, inr,
}
use librfn.Bintree.Memory.{Ptr, null, Nodes}
use librfn.Bintree.Traverse.{
  Visitor, traverse_in_order_depth, bintree_traverse_in_order, traverse_post_order_depth,
  bintree_traverse_post_order, traverse_pre_order_depth, bintree_traverse_pre_order,
  bintree_traverse_list,
}
use librfn.Bintree.Shape.{Tree, nil, node, size, HasTree, elements}

pub record Visit : Type 0 where
  pub tree : Ptr
  pub parent : Ptr
  pub depth : ℕ

abbrev pub visit : Ptr → Ptr → ℕ → Visit
visit tree parent depth = record { tree = tree; parent = parent; depth = depth }

-- Also NULL is visited, under each node that has no subtree on a side.
abbrev pub in_order_visits : Tree → Ptr → ℕ → List Visit
in_order_visits nil parent d = visit null parent d ∷ []
in_order_visits (node l a r) parent d =
    in_order_visits l a (d + 1) ++ (visit a parent d ∷ in_order_visits r a (d + 1))

abbrev pub post_order_visits : Tree → Ptr → ℕ → List Visit
post_order_visits nil parent d = visit null parent d ∷ []
post_order_visits (node l a r) parent d =
    post_order_visits l a (d + 1) ++ (post_order_visits r a (d + 1) ++ (visit a parent d ∷ []))

abbrev pub pre_order_visits : Tree → Ptr → ℕ → List Visit
pre_order_visits nil parent d = visit null parent d ∷ []
pre_order_visits (node l a r) parent d =
    visit a parent d ∷ (pre_order_visits l a (d + 1) ++ pre_order_visits r a (d + 1))

module _ {C : Type 0} (visitor : Visitor C) where
  -- The context after the visits.
  abbrev pub visited : C → List Visit → C
  visited ctx [] = ctx
  visited ctx (v ∷ vs) = visited (visitor ctx v.tree v.parent v.depth) vs

  pub visited-append :
      (ctx : C) (vs ws : List Visit) → visited ctx (vs ++ ws) ≡ visited (visited ctx vs) ws
  visited-append ctx [] ws = refl
  visited-append ctx (v ∷ vs) ws = visited-append (visitor ctx v.tree v.parent v.depth) vs ws

  module _ (m : Nodes) where
    in_order-visits :
        (fuel : ℕ) (t : Tree) (p parent : Ptr) (d : ℕ) (ctx : C)
        → size t < fuel
        → HasTree m p t
        → traverse_in_order_depth m visitor fuel p parent d ctx
          ≡ some (visited ctx (in_order_visits t parent d))
    unfolding traverse_in_order_depth
    in_order-visits zero t p parent d ctx h is = absurd (omega arith)
    in_order-visits (suc fuel) nil p parent d ctx h is = rw is refl
    in_order-visits (suc fuel) (node l a r) p parent d ctx h (at, real, left, right) =
        let first = in_order-visits fuel l (m.left a) a (d + 1) ctx (omega (arith, h)) left in
        let ctx' = visited ctx (in_order_visits l a (d + 1)) in
        let second =
          in_order-visits fuel r (m.right a) a (d + 1) (visitor ctx' a parent d) (omega (arith, h))
            right in
        let joined =
          visited-append ctx (in_order_visits l a (d + 1))
            (visit a parent d ∷ in_order_visits r a (d + 1)) in
        rw (at, ne→== a null real, first, second) (ap (λ c. some c) (sym joined))

    post_order-visits :
        (fuel : ℕ) (t : Tree) (p parent : Ptr) (d : ℕ) (ctx : C)
        → size t < fuel
        → HasTree m p t
        → traverse_post_order_depth m visitor fuel p parent d ctx
          ≡ some (visited ctx (post_order_visits t parent d))
    unfolding traverse_post_order_depth
    post_order-visits zero t p parent d ctx h is = absurd (omega arith)
    post_order-visits (suc fuel) nil p parent d ctx h is = rw is refl
    post_order-visits (suc fuel) (node l a r) p parent d ctx h (at, real, left, right) =
        let first = post_order-visits fuel l (m.left a) a (d + 1) ctx (omega (arith, h)) left in
        let ctx' = visited ctx (post_order_visits l a (d + 1)) in
        let second = post_order-visits fuel r (m.right a) a (d + 1) ctx' (omega (arith, h)) right in
        let joined =
          visited-append ctx (post_order_visits l a (d + 1))
            (post_order_visits r a (d + 1) ++ (visit a parent d ∷ [])) in
        let joined' = visited-append ctx' (post_order_visits r a (d + 1)) (visit a parent d ∷ []) in
        rw (at, ne→== a null real, first, second) (ap (λ c. some c) (sym (joined ∙ joined')))

    pre_order-visits :
        (fuel : ℕ) (t : Tree) (p parent : Ptr) (d : ℕ) (ctx : C)
        → size t < fuel
        → HasTree m p t
        → traverse_pre_order_depth m visitor fuel p parent d ctx
          ≡ some (visited ctx (pre_order_visits t parent d))
    unfolding traverse_pre_order_depth
    pre_order-visits zero t p parent d ctx h is = absurd (omega arith)
    pre_order-visits (suc fuel) nil p parent d ctx h is = rw is refl
    pre_order-visits (suc fuel) (node l a r) p parent d ctx h (at, real, left, right) =
        let ctx' = visitor ctx a parent d in
        let first = pre_order-visits fuel l (m.left a) a (d + 1) ctx' (omega (arith, h)) left in
        let second =
          pre_order-visits fuel r (m.right a) a (d + 1)
            (visited ctx' (pre_order_visits l a (d + 1))) (omega (arith, h)) right in
        let joined =
          visited-append ctx' (pre_order_visits l a (d + 1)) (pre_order_visits r a (d + 1)) in
        rw (at, ne→== a null real, first, second) (ap (λ c. some c) (sym joined))

    -- With a tree in memory and more fuel than it has nodes, each of the three traversals makes its visits, with the
    -- parent and the depth of each, NULL where a subtree is missing included.
    pub traversals_lem :
        (fuel : ℕ) (t : Tree) (p : Ptr) (ctx : C)
        → size t < fuel
        → HasTree m p t
        → (bintree_traverse_in_order m visitor fuel p ctx
            ≡ some (visited ctx (in_order_visits t null 0)))
          × (bintree_traverse_pre_order m visitor fuel p ctx
              ≡ some (visited ctx (pre_order_visits t null 0)))
          × (bintree_traverse_post_order m visitor fuel p ctx
              ≡ some (visited ctx (post_order_visits t null 0)))
    unfolding bintree_traverse_in_order bintree_traverse_pre_order bintree_traverse_post_order
    traversals_lem fuel t p ctx h is = (
      in_order-visits fuel t p null 0 ctx h is,
      pre_order-visits fuel t p null 0 ctx h is,
      post_order-visits fuel t p null 0 ctx h is,
    )

module _ {C : Type 0} (m : Nodes) (is_list : Ptr → Bool) (visitor : C → Ptr → C) where
  abbrev pub handed : C → List Ptr → C
  handed ctx [] = ctx
  handed ctx (p ∷ ps) = handed (visitor ctx p) ps

  handed-append : (ctx : C) (ps qs : List Ptr) → handed ctx (ps ++ qs) ≡ handed (handed ctx ps) qs
  handed-append ctx [] qs = refl
  handed-append ctx (p ∷ ps) qs = handed-append (visitor ctx p) ps qs

  -- `bintree_traverse_list` hands the elements to the visitor, whatever the balance of the list is.
  pub traverse_list_lem :
      (fuel : ℕ) (t : Tree) (p : Ptr) (ctx : C)
      → size t < fuel
      → HasTree m p t
      → bintree_traverse_list m is_list visitor fuel p ctx ≡ some (handed ctx (elements is_list t))
  unfolding bintree_traverse_list
  traverse_list_lem zero t p ctx h is = absurd (omega arith)
  traverse_list_lem (suc fuel) nil p ctx h is = rw is refl
  traverse_list_lem (suc fuel) (node l a r) p ctx h (at, real, left, right) =
      let first = traverse_list_lem fuel l (m.left a) ctx (omega (arith, h)) left in
      let ctx' = handed ctx (elements is_list l) in
      let second = traverse_list_lem fuel r (m.right a) ctx' (omega (arith, h)) right in
      let joined = handed-append ctx (elements is_list l) (elements is_list r) in
      elim (Bool-cases (is_list a)) [
        | inl inner ↦
            rw (at, ne→== a null real, first, second, inner) (ap (λ c. some c) (sym joined))
        | inr element ↦ rw (at, ne→== a null real, element) refl
      ]

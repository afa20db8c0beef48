-- ===== src/Bintree/Returning.antt =====
-- The steps of the pre-order iterator at a node: with no left subtree, and before and behind its left subtree.
use librfn.Common.{ℕ, zero, suc, ◌-◌, ◌≡◌, ◌≢◌, ◌<◌, refl, sym, ap, ◌∙◌, false, arith, ne→==, eq→==}
use librfn.Bintree.Memory.{Ptr, null, Nodes, ok, update}
use librfn.Bintree.Iterate.{Iterator, pre_order_loop}
use librfn.Bintree.Shape.{Tree, node, size, in_tree, Distinct, Ends}
use librfn.Bintree.Spine.{
  rightmost, tied, rightmost_real, right-rightmost, Ends-Spine, Spine-tied, predecessor-rightmost,
  untied,
}

module _ (limit : ℕ) where
  pub step_leaf :
      (fuel : ℕ) (iter : Iterator) (a : Ptr) (m : Nodes)
      → a ≢ null
      → m.left a ≡ null
      → pre_order_loop limit (suc fuel) iter a m ≡ ok (a, record iter { curr = m.right a }) m
  unfolding pre_order_loop
  step_leaf fuel iter a m real empty = let h = ne→== a null real in rw (h, h, empty, h) refl

  -- A node with a left subtree is tied to the end of that, and is given.
  pub step_down :
      (fuel : ℕ) (iter : Iterator) (a b : Ptr) (r : Tree) (m : Nodes)
      → a ≢ null
      → b ≢ null
      → m.left a ≡ b
      → size r < limit
      → in_tree a r ≡ false
      → Ends m (m.right b) r null
      → pre_order_loop limit (suc fuel) iter a m
        ≡ ok (a, record iter { curr = b }) (tied m (rightmost b r) a)
  unfolding pre_order_loop
  step_down fuel iter a b r m real real' at enough out is =
      let h = ne→== a null real in
      let last = ne→== (rightmost b r) null (rightmost_real m b r null real' is) in
      let other = ne→== null a (λ e. real (sym e)) in
      rw
        (
          h,
          h,
          at,
          ne→== b null real',
          predecessor-rightmost limit m a b r null enough out refl real' (Ends-Spine m b r null is),
          last,
          right-rightmost m b r null is,
          other,
          last,
          h,
          at,
        )
        refl

  -- When the thread has led back to it, the thread is undone, and the walk goes on to the right.
  step_up :
      (fuel : ℕ) (iter : Iterator) (a b : Ptr) (l r : Tree) (m : Nodes)
      → a ≢ null
      → b ≢ null
      → m.left a ≡ b
      → size r < limit
      → in_tree a (node l b r) ≡ false
      → Distinct (node l b r)
      → Ends m (m.right b) r null
      → pre_order_loop limit (suc fuel) iter a (tied m (rightmost b r) a)
        ≡ pre_order_loop limit fuel iter (m.right a) m
  unfolding pre_order_loop
  step_up fuel iter a b l r m real real' at enough out d is =
      let h = ne→== a null real in
      let last = ne→== (rightmost b r) null (rightmost_real m b r null real' is) in
      let spine = Spine-tied m.right l b r null a d (Ends-Spine m b r null is) in
      let found =
        predecessor-rightmost limit (tied m (rightmost b r) a) a b r a enough (ground (arith, out))
          (ground arith) real' spine in
      let there : update m.right (rightmost b r) a (rightmost b r) ≡ a = ground arith in
      let undone = untied m.right (rightmost b r) a (right-rightmost m b r null is) in
      rw (h, h, at, ne→== b null real', found, last, there, eq→== a a refl, last, h)
        (ap (λ f. pre_order_loop limit fuel iter (f a) (record m { right = f })) undone)

  pub step_up_positive :
      (f : ℕ) (iter : Iterator) (a b : Ptr) (l r : Tree) (m : Nodes)
      → 0 < f
      → a ≢ null
      → size r < limit
      → in_tree a (node l b r) ≡ false
      → Distinct (node l b r)
      → Ends m (m.left a) (node l b r) null
      → pre_order_loop limit f iter a (tied m (rightmost b r) a)
        ≡ pre_order_loop limit (f - 1) iter (m.right a) m
  step_up_positive zero iter a b l r m some real enough out d is = absurd (omega arith)
  step_up_positive (suc f) iter a b l r m some real enough out d (at, real', left, right) =
      let pred : f ≡ suc f - 1 = omega arith in
      step_up f iter a b l r m real real' at enough out d right
      ∙ ap (λ f. pre_order_loop limit f iter (m.right a) m) pred

-- ===== src/Bintree/Threading.antt =====
-- The steps of the in-order iterator at a node: with no left subtree, and before and behind its left subtree.
use librfn.Common.{ℕ, zero, suc, ◌≡◌, ◌≢◌, ◌<◌, refl, ap, ◌∙◌, false, arith, ne→==}
use librfn.Bintree.Memory.{Ptr, null, Nodes, Run, ok, update}
use librfn.Bintree.Iterate.{Iterator, in_order_loop}
use librfn.Bintree.Shape.{Tree, node, size, in_tree, Distinct, Ends, in_order}
use librfn.Bintree.Spine.{
  rightmost, tied, rightmost_real, right-rightmost, Ends-Spine, Spine-tied, predecessor-rightmost,
  untied,
}
use librfn.Bintree.Client.{marks, marks_outside, among-in_order, marked}

module _ (limit : ℕ) where
  -- A node with no left subtree is given at once.
  pub step_leaf :
      (fuel : ℕ) (iter : Iterator) (a : Ptr) (m : Nodes)
      → a ≢ null
      → m.left a ≡ null
      → in_order_loop limit (suc fuel) iter a m ≡ ok (a, record iter { curr = m.right a }) m
  unfolding in_order_loop
  step_leaf fuel iter a m real empty = let h = ne→== a null real in rw (h, h, empty, h) refl

  -- One with a left subtree is tied to the end of that, which comes first.
  pub step_thread :
      (fuel : ℕ) (iter : Iterator) (a b : Ptr) (r : Tree) (m : Nodes)
      → a ≢ null
      → b ≢ null
      → m.left a ≡ b
      → size r < limit
      → in_tree a r ≡ false
      → Ends m (m.right b) r null
      → in_order_loop limit (suc fuel) iter a m
        ≡ in_order_loop limit fuel iter b (tied m (rightmost b r) a)
  unfolding in_order_loop
  step_thread fuel iter a b r m real real' at enough out is =
      let h = ne→== a null real in
      let last = ne→== (rightmost b r) null (rightmost_real m b r null real' is) in
      rw
        (
          h,
          h,
          at,
          ne→== b null real',
          predecessor-rightmost limit m a b r null enough out refl real' (Ends-Spine m b r null is),
          last,
          right-rightmost m b r null is,
          last,
          h,
          at,
        )
        refl

  -- When the thread has led back to it, the thread is undone and it is given.
  pub step_back :
      (fuel : ℕ) (iter : Iterator) (a b : Ptr) (l r : Tree) (left : Ptr → Ptr) (m : Nodes)
      → a ≢ null
      → b ≢ null
      → left a ≡ b
      → size r < limit
      → in_tree a (node l b r) ≡ false
      → Distinct (node l b r)
      → Ends m (m.right b) r null
      → in_order_loop limit
          (suc fuel)
          iter
          a
          (record { left = left; right = update m.right (rightmost b r) a })
        ≡ ok (a, record iter { curr = m.right a }) (record m { left = left })
  unfolding in_order_loop
  step_back fuel iter a b l r left m real real' at enough out d is =
      let threaded : Nodes = record { left = left; right = update m.right (rightmost b r) a } in
      let h = ne→== a null real in
      let last = ne→== (rightmost b r) null (rightmost_real m b r null real' is) in
      let spine = Spine-tied m.right l b r null a d (Ends-Spine m b r null is) in
      let found =
        predecessor-rightmost limit threaded a b r a enough (ground (arith, out)) (ground arith)
          real' spine in
      let there : update m.right (rightmost b r) a (rightmost b r) ≡ a = ground arith in
      let result : (Ptr → Ptr) → Run (Ptr × Iterator) =
        λ f. ok (a, record iter { curr = f a }) (record { left = left; right = f }) in
      let undone = untied m.right (rightmost b r) a (right-rightmost m b r null is) in
      rw (h, h, at, ne→== b null real', found, last, there, h, last, h) (ap result undone)

  module _ (g : Ptr → Ptr) where
    -- The same once the nodes of the subtree have been marked.
    pub step_marked :
        (f : ℕ) (i : Iterator) (a b : Ptr) (l r : Tree) (m : Nodes)
        → 0 < f
        → a ≢ null
        → size r < limit
        → in_tree a (node l b r) ≡ false
        → Distinct (node l b r)
        → Ends m (m.left a) (node l b r) null
        → in_order_loop limit f i a (marked g (tied m (rightmost b r) a) (in_order (node l b r)))
          ≡ ok (a, record i { curr = m.right a }) (marked g m (in_order (node l b r)))
    step_marked zero i a b l r m some real enough out d is = absurd (omega arith)
    step_marked (suc f) i a b l r m some real enough out d (at, realb, left, right) =
        let kept =
          marks_outside g m.left (in_order (node l b r)) a (among-in_order a (node l b r) ∙ out) in
        step_back f i a b l r (marks g m.left (in_order (node l b r))) m real realb (kept ∙ at)
          enough out d right

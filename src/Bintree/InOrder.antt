-- ===== src/Bintree/InOrder.antt =====
-- The in-order iterator gives the nodes in order, and undoes every thread that it ties.
use librfn.Common.{
  ℕ, zero, suc, ◌+◌, ◌-◌, ◌≡◌, ◌≢◌, ◌<◌, refl, sym, ap, ◌∙◌, subst, List, [], ◌∷◌, ◌++◌, append-nil,
  arith,
}
use librfn.Bintree.Memory.{Ptr, null, Nodes, Run, ok, ◌>>=◌}
use librfn.Bintree.Iterate.{
  Iterator, next_in_order, in_order_loop, bintree_next, bintree_iterate_in_order,
}
use librfn.Bintree.Shape.{Tree, nil, node, size, in_tree, Distinct, Ends, HasTree, in_order}
use librfn.Bintree.Spine.{rightmost, tied, Ends-tied}
use librfn.Bintree.Client.{
  marks-append, among-in_order, marked, Ends-marked, prepended_nothing, prepended, prepended-append,
  going_on, client-visit, client, marks_same,
}
use librfn.Bintree.Threading.{step_leaf, step_thread, step_marked}

-- The iterator with its function.
abbrev in_order_from : Iterator → Iterator
in_order_from iter = record iter { next = next_in_order }

-- The rounds of a loop over the tree that come before `n` further ones.
abbrev rounds : Tree → ℕ → ℕ
rounds nil n = n
rounds (node l a r) n = rounds l (suc (rounds r n))

rounds-size : (t : Tree) (n : ℕ) → rounds t n ≡ size t + n
rounds-size nil n = omega arith
rounds-size (node l a r) n = omega (arith, rounds-size l (suc (rounds r n)), rounds-size r n)

module _ (limit : ℕ) where
  module _ (g : Ptr → Ptr) where
    -- From `run` the client gets `xs`, and then the loop of the iterator is at `e`.
    abbrev Passes : ℕ → Run (Ptr × Iterator) → List Ptr → ℕ → Iterator → Ptr → Nodes → Type 0
    Passes k run xs n iter e m =
        (fuel : ℕ) × (c : Ptr) × (0 < fuel)
        × (going_on (bintree_next limit) g k run
            ≡ prepended xs (
                going_on (bintree_next limit) g n
                  (in_order_loop limit fuel (record iter { curr = c }) e m)))

    chain :
        (k k' n : ℕ) (run run' : Run (Ptr × Iterator)) (xs ys : List Ptr) (iter : Iterator)
        (e : Ptr) (m : Nodes)
        → going_on (bintree_next limit) g k run
          ≡ prepended xs (going_on (bintree_next limit) g k' run')
        → Passes k' run' ys n iter e m
        → Passes k run (xs ++ ys) n iter e m
    chain k k' n run run' xs ys iter e m first (fuel, c, some, rest) = (
      fuel,
      c,
      some,
      first
          ∙ ap (prepended xs) rest
          ∙ prepended-append xs ys (
              going_on (bintree_next limit) g n
                (in_order_loop limit fuel (record iter { curr = c }) e m)),
    )

    chain_visit :
        (k n : ℕ) (a : Ptr) (ys : List Ptr) (iter iter' : Iterator) (e : Ptr) (m m' : Nodes)
        → a ≢ null
        → Passes k (bintree_next limit iter' (marked g m (a ∷ []))) ys n iter e m'
        → Passes (suc k) (ok (a, iter') m) (a ∷ ys) n iter e m'
    chain_visit k n a ys iter iter' e m m' real rest =
        chain (suc k) k n (ok (a, iter') m) (bintree_next limit iter' (marked g m (a ∷ [])))
          (a ∷ []) ys iter e m' (client-visit (bintree_next limit) g k a iter' m real) rest

    passes :
        (t : Tree) (n fuel : ℕ) (i : Iterator) (m : Nodes) (p e : Ptr)
        → size t < fuel
        → size t < limit
        → Distinct t
        → Ends m p t e
        → Passes
            (rounds t n)
            (in_order_loop limit fuel (in_order_from i) p m)
            (in_order t)
            n
            (in_order_from i)
            e
            (marked g m (in_order t))
    unfolding bintree_next
    passes nil n fuel i m p e h enough d is =
        let iter = in_order_from i in
        let there = in_order_loop limit fuel iter e m in
        (
          fuel,
          iter.curr,
          h,
          ap (λ q. going_on (bintree_next limit) g n (in_order_loop limit fuel iter q m)) is
              ∙ sym (prepended_nothing (going_on (bintree_next limit) g n there)),
        )
    passes (node l a r) n zero i m p e h enough d is = absurd (omega arith)
    passes (node nil a r) n (suc fuel) i m p e h enough (al, ar, lr, dl, dr)
          (at, real, left, right) =
        let iter = in_order_from i in
        let iter' = in_order_from (record i { curr = m.right a }) in
        let m' = marked g m (a ∷ []) in
        let found =
          ap (λ q. in_order_loop limit (suc fuel) iter q m) at
          ∙ step_leaf limit fuel iter a m real left in
        let rest =
          passes r n limit (record i { curr = m.right a }) m' (m.right a) e (omega (arith, enough))
            (omega (arith, enough)) dr
            (Ends-marked g (a ∷ []) m (m.right a) r e
              (λ q i. ground (arith, ar, λ (x : q ≡ a). ap (λ z. in_tree z r) x)) right) in
        subst
          (λ run.
            Passes (suc (rounds r n)) run (a ∷ in_order r) n iter e (marked g m (a ∷ in_order r)))
          (sym found)
          (chain_visit (rounds r n) n a (in_order r) iter iter' e m (marked g m' (in_order r)) real
            rest)
    passes (node (node ll b lx) a r) n (suc fuel) i m p e h enough (al, ar, lr, dl, dr)
          (at, real, left, right) =
        let iter = in_order_from i in
        let (atl, realb, leftl, rightl) = left in
        let l = node ll b lx in
        let k = rounds r n in
        let m1 = tied m (rightmost b lx) a in
        let m2 = marked g m (in_order l) in
        let m3 = marked g m2 (a ∷ []) in
        let iter' = in_order_from (record i { curr = m.right a }) in
        let found =
          ap (λ q. in_order_loop limit (suc fuel) iter q m) at
          ∙ step_thread limit fuel iter a b lx m real realb atl (omega (arith, enough))
              (ground (arith, al)) rightl in
        let (f, c, some, first) =
          passes (node ll b lx) (suc k) fuel i m1 b a (omega (arith, h)) (omega (arith, enough)) dl
            (Ends-tied m b ll b lx null a dl (refl, realb, leftl, rightl)) in
        let apart =
          Ends-marked g (a ∷ []) m2 (m.right a) r e
            (λ q i. ground (arith, ar, λ (x : q ≡ a). ap (λ z. in_tree z r) x))
            (Ends-marked g (in_order l) m (m.right a) r e
              (λ q i. among-in_order q l ∙ ground (arith, lr q, i)) right) in
        let rest =
          passes r n limit (record i { curr = m.right a }) m3 (m.right a) e (omega (arith, enough))
            (omega (arith, enough)) dr apart in
        let back =
          step_marked limit g f (record iter { curr = c }) a b ll lx m some real
            (omega (arith, enough)) al dl left in
        subst
          (λ m'.
            Passes (rounds l (suc k)) (in_order_loop limit (suc fuel) iter p m)
              (in_order l ++ (a ∷ in_order r)) n iter e m')
          (ap (λ f. record m { left = f })
            (sym (marks-append g m.left (in_order l) (a ∷ in_order r))))
          (chain (rounds l (suc k)) (suc k) n (in_order_loop limit (suc fuel) iter p m)
            (ok (a, iter') m2) (in_order l) (a ∷ in_order r) iter e (marked g m3 (in_order r))
            (ap (going_on (bintree_next limit) g (rounds l (suc k))) found
              ∙ first
              ∙ ap (λ run. prepended (in_order l) (going_on (bintree_next limit) g (suc k) run))
                  back)
            (chain_visit k n a (in_order r) iter iter' e m2 (marked g m3 (in_order r)) real rest))

  ended :
      (g : Ptr → Ptr) (n f : ℕ) (iter : Iterator) (m : Nodes)
      → 0 < n
      → 0 < f
      → going_on (bintree_next limit) g n (in_order_loop limit f iter null m)
        ≡ ok ([], record iter { curr = null }) m
  unfolding client in_order_loop
  ended g zero f iter m h h' = absurd (omega arith)
  ended g (suc n) zero iter m h h' = absurd (omega arith)
  ended g (suc n) (suc f) iter m h h' = refl

  -- On a tree in memory in which no node stands twice: a loop over the in-order iterator that changes the left word of each node it is given by `g`, with
  -- more rounds and more fuel than the tree has nodes: it ends, it is given every node once, in order,
  -- and the memory is as it was but for those changes. With no changes, it is just as it was.
  pub iterate_in_order_lem :
      (g : Ptr → Ptr) (t : Tree) (n : ℕ) (iter : Iterator) (m : Nodes) (p : Ptr)
      → size t < limit
      → size t < n
      → Distinct t
      → HasTree m p t
      → ((iter' : Iterator) × ((bintree_iterate_in_order limit iter p
                >>= client (bintree_next limit) g n)
              m
            ≡ ok (in_order t, iter') (marked g m (in_order t))))
        × ((iter' : Iterator) × ((bintree_iterate_in_order limit iter p
                  >>= client (bintree_next limit) (λ l. l) n)
                m
              ≡ ok (in_order t, iter') m))
  unfolding bintree_iterate_in_order
  iterate_in_order_lem g t n iter m p h h' d is =
      let (i, e) = whole (λ l. l) in
      (
        whole g,
        (
          i,
          e ∙ ap (λ f. ok (in_order t, i) (record m { left = f })) (marks_same m.left (in_order t)),
        ),
      )
    where
      whole :
          (g : Ptr → Ptr)
          → (iter' : Iterator) × ((bintree_iterate_in_order limit iter p
                  >>= client (bintree_next limit) g n)
                m
              ≡ ok (in_order t, iter') (marked g m (in_order t)))
      whole g =
          let (f, c, some, e) =
            passes g t (n - size t) limit (record iter { curr = p }) m p null h h d is in
          let rest =
            ended g (n - size t) f (record iter { next = next_in_order; curr = c })
              (marked g m (in_order t)) (omega (arith, h')) some in
          let count : rounds t (n - size t) ≡ n = rounds-size t (n - size t) ∙ omega (arith, h') in
          (
            record iter { next = next_in_order; curr = null },
            ap
                  (λ k. going_on (bintree_next limit) g k (
                    in_order_loop limit limit (record iter { next = next_in_order; curr = p }) p m))
                  (sym count)
                ∙ e
                ∙ ap (prepended (in_order t)) rest
                ∙ ap
                    (λ xs.
                      ok (xs, record iter { next = next_in_order; curr = null })
                        (marked g m (in_order t)))
                    (append-nil (in_order t)),
          )

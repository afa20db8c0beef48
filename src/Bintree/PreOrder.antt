-- ===== src/Bintree/PreOrder.antt =====
-- The pre-order iterator gives each node before its subtrees, and undoes every thread that it ties.
use librfn.Common.{
  ℕ, zero, suc, ◌+◌, ◌-◌, ◌≡◌, ◌≢◌, ◌<◌, ◌≤◌, refl, sym, ap, ◌∙◌, List, [], ◌∷◌, ◌++◌, append-nil,
  arith,
}
use librfn.Bintree.Memory.{Ptr, null, Nodes, Run, ok, ◌>>=◌}
use librfn.Bintree.Iterate.{
  Iterator, next_pre_order, pre_order_loop, bintree_next, bintree_iterate_pre_order,
}
use librfn.Bintree.Shape.{Tree, nil, node, size, Distinct, Ends, HasTree, pre_order}
use librfn.Bintree.Spine.{rightmost, tied, Ends-tied}
use librfn.Bintree.Client.{
  marks_same, prepended, prepended_nothing, prepended-append, client, going_on, client-visit,
}
use librfn.Bintree.Returning.{step_leaf, step_down, step_up_positive}

-- The iterator with its function.
abbrev pre_order_from : Iterator → Iterator
pre_order_from iter = record iter { next = next_pre_order }

-- The rounds of a loop over the tree that come before `n` further ones.
abbrev rounds : Tree → ℕ → ℕ
rounds nil n = n
rounds (node l a r) n = suc (rounds l (rounds r n))

rounds-size : (t : Tree) (n : ℕ) → rounds t n ≡ size t + n
rounds-size nil n = omega arith
rounds-size (node l a r) n = omega (arith, rounds-size l (rounds r n), rounds-size r n)

module _ (limit : ℕ) where
  -- From `run` the client gets `xs`, and then the loop of the iterator is at `e`. `slack` is the fuel
  -- that the loop has used.
  abbrev Passes : ℕ → Run (Ptr × Iterator) → List Ptr → ℕ → ℕ → Iterator → Ptr → Nodes → Type 0
  Passes k run xs n slack iter e m =
      (fuel : ℕ) × (c : Ptr) × (limit ≤ fuel + slack)
      × (going_on (bintree_next limit) (λ l. l) k run
          ≡ prepended xs (
              going_on (bintree_next limit) (λ l. l) n
                (pre_order_loop limit fuel (record iter { curr = c }) e m)))

  chain :
      (k k' n slack slack' : ℕ) (run run' : Run (Ptr × Iterator)) (xs ys : List Ptr)
      (iter : Iterator) (e : Ptr) (m : Nodes)
      → slack ≤ slack'
      → going_on (bintree_next limit) (λ l. l) k run
        ≡ prepended xs (going_on (bintree_next limit) (λ l. l) k' run')
      → Passes k' run' ys n slack iter e m
      → Passes k run (xs ++ ys) n slack' iter e m
  chain k k' n slack slack' run run' xs ys iter e m more first (fuel, c, left, rest) = (
    fuel,
    c,
    omega (arith, left, more),
    first
        ∙ ap (prepended xs) rest
        ∙ prepended-append xs ys (
            going_on (bintree_next limit) (λ l. l) n
              (pre_order_loop limit fuel (record iter { curr = c }) e m)),
  )

  visited :
      (k : ℕ) (a : Ptr) (iter : Iterator) (m : Nodes)
      → a ≢ null
      → going_on (bintree_next limit) (λ l. l) (suc k) (ok (a, iter) m)
        ≡ prepended (a ∷ []) (going_on (bintree_next limit) (λ l. l) k (bintree_next limit iter m))
  visited k a iter m real =
      client-visit (bintree_next limit) (λ l. l) k a iter m real
      ∙ ap
          (λ f. prepended (a ∷ []) (
            going_on (bintree_next limit) (λ l. l) k
              (bintree_next limit iter (record m { left = f }))))
          (marks_same m.left (a ∷ []))

  passes :
      (t : Tree) (n fuel slack : ℕ) (i : Iterator) (m : Nodes) (p e : Ptr)
      → limit ≤ fuel + slack
      → slack + size t < limit
      → Distinct t
      → Ends m p t e
      → Passes
          (rounds t n)
          (pre_order_loop limit fuel (pre_order_from i) p m)
          (pre_order t)
          n
          (slack + size t)
          (pre_order_from i)
          e
          m
  unfolding bintree_next
  passes nil n fuel slack i m p e left enough d is =
      let iter = pre_order_from i in
      (
        fuel,
        iter.curr,
        omega (arith, left),
        ap (λ q. going_on (bintree_next limit) (λ l. l) n (pre_order_loop limit fuel iter q m)) is
            ∙ sym (
                prepended_nothing
                  (going_on (bintree_next limit) (λ l. l) n (pre_order_loop limit fuel iter e m))),
      )
  passes (node l a r) n zero slack i m p e left enough d is = absurd (omega (arith, left, enough))
  passes (node nil a r) n (suc fuel) slack i m p e left enough (al, ar, lr, dl, dr)
        (at, real, empty, right) =
      let iter = pre_order_from i in
      let iter' = pre_order_from (record i { curr = m.right a }) in
      let found =
        ap (λ q. pre_order_loop limit (suc fuel) iter q m) at
        ∙ step_leaf limit fuel iter a m real empty in
      let rest =
        passes r n limit 0 (record i { curr = m.right a }) m (m.right a) e (omega arith)
          (omega (arith, enough)) dr right in
      chain (suc (rounds r n)) (rounds r n) n (0 + size r) (slack + size (node nil a r))
        (pre_order_loop limit (suc fuel) iter p m) (bintree_next limit iter' m) (a ∷ [])
        (pre_order r) iter e m (omega arith)
        (ap (going_on (bintree_next limit) (λ l. l) (suc (rounds r n))) found
          ∙ visited (rounds r n) a iter' m real)
        rest
  passes (node (node ll b lx) a r) n (suc fuel) slack i m p e left enough (al, ar, lr, dl, dr)
        (at, real, below, right) =
      let (atl, realb, leftl, rightl) = below in
      let l = node ll b lx in
      let k = rounds r n in
      let m1 = tied m (rightmost b lx) a in
      let iter = pre_order_from i in
      let i' : Iterator = record i { curr = b } in
      let found =
        ap (λ q. pre_order_loop limit (suc fuel) iter q m) at
        ∙ step_down limit fuel iter a b lx m real realb atl (omega (arith, enough))
            (ground (arith, al)) rightl in
      let (f, c, remains, first) =
        passes (node ll b lx) k limit 0 i' m1 b a (omega arith) (omega (arith, enough)) dl
          (Ends-tied m b ll b lx null a dl (refl, realb, leftl, rightl)) in
      let up =
        step_up_positive limit f (pre_order_from (record i { curr = c })) a b ll lx m
          (omega (arith, remains, enough)) real (omega (arith, enough)) al dl below in
      let rest =
        passes r n (f - 1) (size l + 1) (record i { curr = c }) m (m.right a) e
          (omega (arith, remains, enough)) (omega (arith, enough)) dr right in
      let behind =
        chain (rounds l k) k n (size l + 1 + size r) (size l + 1 + size r)
          (pre_order_loop limit limit (pre_order_from i') b m1)
          (pre_order_loop limit (f - 1) (pre_order_from (record i { curr = c })) (m.right a) m)
          (pre_order l) (pre_order r) iter e m (omega arith)
          (first
            ∙ ap (λ run. prepended (pre_order l) (going_on (bintree_next limit) (λ l. l) k run)) up)
          rest in
      chain (suc (rounds l k)) (rounds l k) n (size l + 1 + size r) (slack + size (node l a r))
        (pre_order_loop limit (suc fuel) iter p m) (bintree_next limit (pre_order_from i') m1)
        (a ∷ []) (pre_order l ++ pre_order r) iter e m (omega arith)
        (ap (going_on (bintree_next limit) (λ l. l) (suc (rounds l k))) found
          ∙ visited (rounds l k) a (pre_order_from i') m1 real)
        behind

  ended :
      (n f : ℕ) (iter : Iterator) (m : Nodes)
      → 0 < n
      → 0 < f
      → going_on (bintree_next limit) (λ l. l) n (pre_order_loop limit f iter null m)
        ≡ ok ([], record iter { curr = null }) m
  unfolding client pre_order_loop
  ended zero f iter m h h' = absurd (omega arith)
  ended (suc n) zero iter m h h' = absurd (omega arith)
  ended (suc n) (suc f) iter m h h' = refl

  -- On a tree in memory in which no node stands twice: a loop over the pre-order iterator with more rounds and more fuel than the tree has nodes ends; it
  -- is given every node once, each before the nodes of its subtrees, and leaves the memory as it was.
  pub iterate_pre_order_lem :
      (t : Tree) (n : ℕ) (iter : Iterator) (m : Nodes) (p : Ptr)
      → size t < limit
      → size t < n
      → Distinct t
      → HasTree m p t
      → (iter' : Iterator) × ((bintree_iterate_pre_order limit iter p
              >>= client (bintree_next limit) (λ l. l) n)
            m
          ≡ ok (pre_order t, iter') m)
  unfolding bintree_iterate_pre_order
  iterate_pre_order_lem t n iter m p h h' d is =
      let (f, c, left, e) =
        passes t (n - size t) limit 0 (record iter { curr = p }) m p null (omega arith)
          (omega (arith, h)) d is in
      let end : Iterator = record iter { next = next_pre_order; curr = null } in
      let rest =
        ended (n - size t) f (record iter { next = next_pre_order; curr = c }) m (omega (arith, h'))
          (omega (arith, left, h)) in
      let count : rounds t (n - size t) ≡ n = rounds-size t (n - size t) ∙ omega (arith, h') in
      (
        end,
        ap
              (λ k.
                going_on (bintree_next limit) (λ l. l) k
                  (pre_order_loop limit limit (record iter { next = next_pre_order; curr = p }) p
                    m))
              (sym count)
            ∙ e
            ∙ ap (prepended (pre_order t)) rest
            ∙ ap (λ xs. ok (xs, end) m) (append-nil (pre_order t)),
      )

-- ===== src/Bintree/Free.antt =====
-- librfn/bintree.c: freeing a tree by the post-order iterator.
use librfn.Common.{ℕ, zero, suc, List, [], ◌∷◌, ◌==◌, if◌then◌else◌}
use librfn.Bintree.Memory.{
  Ptr, null, out_of_fuel, Cmd, pure, ◌>>=◌, ◌>>◌, load_left, load_right, store_left, store_right,
}
use librfn.Bintree.Iterate.{Iterator, bintree_next, bintree_iterate_post_order}

-- The word through which the parent of a node that was freed led to it is overwritten.
abbrev pub unlink : Ptr → Ptr → Cmd (Unit {0})
unlink parent n =
    if parent == null
    then pure tt
    else load_right parent >>= λ r. if r == n then store_right parent null else store_left parent 1

-- The calls of `dealloc`, which are the client's, as the list of their arguments.
unfoldable pub free_loop : ℕ → ℕ → Ptr → Iterator → Cmd (List Ptr)
unfolding bintree_next
free_loop fuel zero n iter = λ m. out_of_fuel
free_loop fuel (suc rounds) n iter =
    let rest =
      unlink iter.parent n
      >> (bintree_next fuel iter >>= λ (n', iter).
          free_loop fuel rounds n' iter >>= λ freed. pure (n ∷ freed)) in
    if n == null then pure [] else rest

unfoldable pub bintree_free : ℕ → Iterator → Ptr → Cmd (List Ptr)
unfolding bintree_iterate_post_order free_loop
bintree_free fuel iter tree =
    bintree_iterate_post_order fuel iter tree >>= λ (n, iter). free_loop fuel fuel n iter

unfoldable pub bintree_free_left : ℕ → Iterator → Ptr → Cmd (List Ptr)
unfolding bintree_free
bintree_free_left fuel iter tree = load_left tree >>= λ l.
    if l == null
    then pure []
    else bintree_free fuel iter l >>= λ freed. store_left tree null >> pure freed

unfoldable pub bintree_free_right : ℕ → Iterator → Ptr → Cmd (List Ptr)
unfolding bintree_free
bintree_free_right fuel iter tree = load_right tree >>= λ r.
    if r == null
    then pure []
    else bintree_free fuel iter r >>= λ freed. store_right tree null >> pure freed

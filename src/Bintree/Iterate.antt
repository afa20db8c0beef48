-- ===== src/Bintree/Iterate.antt =====
-- librfn/bintree.c and include/librfn/bintree.h: the iterators. `fuel` is that of each loop.
use Prim.Native.Nat.{bit_and, bit_or}
use librfn.Common.{
  ℕ, zero, suc, ◌-◌, ◌^◌, Bool, false, not, ◌&&◌, ◌||◌, List, [], ◌∷◌, ◌==◌, if◌then◌else◌,
}
use librfn.Bintree.Memory.{
  Ptr, null, out_of_fuel, Cmd, pure, ◌>>=◌, ◌>>◌, load_left, load_right, store_left, store_right,
}

-- The function at `iter->next`.
pub data Next : Type 0 where
  next_in_order next_list_left next_list_right next_post_order next_pre_order : Next

-- `bintree_iterator_t`; what a client has not set yet is any value.
pub record Iterator : Type 0 where
  pub next : Next
  pub filter : Ptr → Bool
  pub curr : Ptr
  pub parent : Ptr

-- The search for the in-order predecessor of `curr`.
unfoldable pub predecessor : ℕ → Ptr → Ptr → Cmd Ptr
predecessor zero curr prev = λ m. out_of_fuel
predecessor (suc fuel) curr prev = load_right prev >>= λ r.
    let rest = predecessor fuel curr r in
    if not (r == null) && not (r == curr) then rest else pure prev

-- The iterator moves to the right of `curr`, which is returned.
abbrev pub return_right : Iterator → Ptr → Cmd (Ptr × Iterator)
return_right iter curr = load_right curr >>= λ r. pure (curr, record iter { curr = r })

module _ (limit : ℕ) where
  unfoldable pub in_order_loop : ℕ → Iterator → Ptr → Cmd (Ptr × Iterator)
  in_order_loop zero iter curr = λ m. out_of_fuel
  in_order_loop (suc fuel) iter curr =
      let step = load_left curr >>= λ l.
      if l == null
      then return_right iter curr
      else predecessor limit curr l >>= λ prev. load_right prev >>= λ r.
          if r == null
          then store_right prev curr >> (load_left curr >>= λ l. in_order_loop fuel iter l)
          else store_right prev null >> return_right iter curr in
      if curr == null then pure (null, record iter { curr = null }) else step

  unfoldable pub pre_order_loop : ℕ → Iterator → Ptr → Cmd (Ptr × Iterator)
  pre_order_loop zero iter curr = λ m. out_of_fuel
  pre_order_loop (suc fuel) iter curr =
      let step = load_left curr >>= λ l.
      if l == null
      then return_right iter curr
      else predecessor limit curr l >>= λ prev. load_right prev >>= λ r.
          if r == curr
          then store_right prev null >> (load_right curr >>= λ r. pre_order_loop fuel iter r)
          else store_right prev curr
            >> (load_left curr >>= λ l. pure (curr, record iter { curr = l })) in
      if curr == null then pure (null, record iter { curr = null }) else step

-- From the top to the node whose left is `curr`.
unfoldable pub list_parent : ℕ → Ptr → Ptr → Cmd Ptr
list_parent zero curr parent = λ m. out_of_fuel
list_parent (suc fuel) curr parent = load_left parent >>= λ l.
    let rest = list_parent fuel curr l in if l == curr then pure parent else rest

unfoldable pub list_left_iterator : ℕ → Iterator → Cmd (Ptr × Iterator)
unfolding list_parent
list_left_iterator fuel iter =
    if iter.curr == null
    then pure (null, iter)
    else if iter.curr == iter.parent
    then (load_right iter.curr >>= λ r. pure (r, record iter { curr = null }))
    else list_parent fuel iter.curr iter.parent >>= λ parent.
        load_right iter.curr >>= λ r. pure (r, record iter { curr = parent })

unfoldable pub list_right_iterator : Iterator → Cmd (Ptr × Iterator)
list_right_iterator iter =
    if (iter.curr == null) || not (iter.filter iter.curr)
    then pure (iter.curr, record iter { curr = null })
    else load_left iter.curr >>= λ l.
        load_right iter.curr >>= λ r. pure (l, record iter { curr = r })

-- `!((uintptr_t) node->left & 1)`
abbrev pub is_visited : Ptr → Cmd Bool
is_visited p = load_left p >>= λ l. pure (bit_and l 1 == 0)

-- The test that there is a node and that it has not been visited.
abbrev pub to_visit : Ptr → Cmd Bool
to_visit p = if p == null then pure false else is_visited p >>= λ visited. pure (not visited)

-- `(uintptr_t) p & (uintptr_t) -2`
abbrev pub unmarked : Ptr → Ptr
unmarked p = bit_and p (2 ^ 64 - 2)

unfoldable pub post_order_loop : ℕ → Iterator → Ptr → Ptr → Cmd (Ptr × Iterator)
post_order_loop zero iter tmp prev = λ m. out_of_fuel
post_order_loop (suc fuel) iter tmp prev = to_visit tmp >>= λ unvisited.
    let step = load_left tmp >>= λ word.
    let left = unmarked word in
    let go_left = post_order_loop fuel iter left tmp in
    to_visit left >>= λ left_first.
    if left_first
    then go_left
    else load_right tmp >>= λ right.
        let go_right = post_order_loop fuel iter right tmp in
        to_visit right >>= λ right_first.
        if right_first
        then go_right
        else store_left tmp left
          >> pure (
            tmp,
            record iter { curr = if tmp == iter.curr then null else iter.curr; parent = prev },
          ) in
    if unvisited then step else pure (null, iter)

unfoldable pub bintree_next : ℕ → Iterator → Cmd (Ptr × Iterator)
unfolding in_order_loop list_left_iterator list_right_iterator post_order_loop pre_order_loop
bintree_next fuel iter = elim iter.next [
  | next_in_order ↦ in_order_loop fuel fuel iter iter.curr
  | next_list_left ↦ list_left_iterator fuel iter
  | next_list_right ↦ list_right_iterator iter
  | next_post_order ↦ post_order_loop fuel iter iter.curr null
  | next_pre_order ↦ pre_order_loop fuel fuel iter iter.curr
]

unfoldable pub bintree_iterate_in_order : ℕ → Iterator → Ptr → Cmd (Ptr × Iterator)
unfolding bintree_next
bintree_iterate_in_order fuel iter tree =
    bintree_next fuel (record iter { next = next_in_order; curr = tree })

unfoldable pub bintree_iterate_pre_order : ℕ → Iterator → Ptr → Cmd (Ptr × Iterator)
unfolding bintree_next
bintree_iterate_pre_order fuel iter tree =
    bintree_next fuel (record iter { next = next_pre_order; curr = tree })

-- The `do` loop of `bintree_iterate_list`.
unfoldable pub list_bottom : (Ptr → Bool) → ℕ → Ptr → Cmd Ptr
list_bottom is_list zero tree = λ m. out_of_fuel
list_bottom is_list (suc fuel) tree = load_left tree >>= λ tree. load_left tree >>= λ l.
    let rest = list_bottom is_list fuel tree in if is_list l then rest else pure tree

-- `tree->left && is_list(tree->left)`
abbrev pub left_is_list : (Ptr → Bool) → Ptr → Cmd Bool
left_is_list is_list tree = load_left tree >>= λ l. pure (not (l == null) && is_list l)

unfoldable pub bintree_iterate_list : ℕ → Iterator → Ptr → (Ptr → Bool) → Cmd (Ptr × Iterator)
unfolding bintree_next list_bottom
bintree_iterate_list fuel iter tree is_list =
    (if is_list tree then left_is_list is_list tree else pure false) >>= λ leftwards.
    if leftwards
    then (list_bottom is_list fuel tree >>= λ bottom. load_left bottom >>= λ l.
        pure (l, record { next = next_list_left; filter = is_list; curr = bottom; parent = tree }))
    else bintree_next fuel (record iter { next = next_list_right; filter = is_list; curr = tree })

-- The loop that marks the nodes. It goes on at most `rounds` times.
unfoldable pub mark_all : ℕ → ℕ → Ptr → Iterator → Cmd Iterator
unfolding bintree_next
mark_all fuel zero curr iter = λ m. out_of_fuel
mark_all fuel (suc rounds) curr iter =
    let rest = load_left curr >>= λ l.
    store_left curr (bit_or l 1)
    >> (bintree_next fuel iter >>= λ (n, iter). mark_all fuel rounds n iter) in
    if curr == null then pure iter else rest

unfoldable pub bintree_iterate_post_order : ℕ → Iterator → Ptr → Cmd (Ptr × Iterator)
unfolding bintree_iterate_in_order mark_all bintree_next
bintree_iterate_post_order fuel iter tree = bintree_iterate_in_order fuel iter tree >>= λ (n, iter).
    mark_all fuel fuel n iter >>= λ iter.
    bintree_next fuel (record iter { next = next_post_order; curr = tree })

-- The loop over what is left of an iteration.
unfoldable pub bintree_iterate_complete : ℕ → ℕ → Iterator → Cmd Iterator
unfolding bintree_next
bintree_iterate_complete fuel zero iter = λ m. out_of_fuel
bintree_iterate_complete fuel (suc rounds) iter = bintree_next fuel iter >>= λ (n, iter).
    let rest = bintree_iterate_complete fuel rounds iter in if n == null then pure iter else rest

-- A client's loop, `for (n = bintree_iterate_...(&iter, tree); n; n = bintree_next(&iter))`: the nodes
-- that it gets.
unfoldable pub iterated : ℕ → ℕ → Ptr × Iterator → Cmd (List Ptr)
iterated fuel zero (n, iter) = λ m. out_of_fuel
iterated fuel (suc rounds) (n, iter) =
    let rest =
      bintree_next fuel iter >>= λ next. iterated fuel rounds next >>= λ ns. pure (n ∷ ns) in
    if n == null then pure [] else rest

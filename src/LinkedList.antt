-- ===== src/LinkedList.antt =====
-- librfn/list.c and include/librfn/list.h: singly linked lists of the clients' nodes, with a tail
-- pointer. The loops run on fuel; `Search` and `Sorted` show how much is enough.
pub mod Heap
pub mod Links
mod Splice
pub mod IsList
mod Change
pub mod Insert
pub mod Extract
pub mod Search
pub mod Sorted
pub mod Keys
mod Examples
use librfn.Common.{ℕ, zero, suc, Bool, true, false, not, ◌==◌, if◌then◌else◌}
use librfn.Common.Int.{ℤ, nonneg}
use librfn.LinkedList.Heap.{
  Ptr, null, Cmd, out_of_fuel, pure, ◌>>=◌, ◌>>◌, assert, load, store, load_tail, store_tail,
}

-- `list_iterator_t`
pub record Iterator : Type 0 where
  pub prevnext : Ptr
  pub list : Ptr

unfoldable pub insert : Ptr → Ptr → Cmd (Unit {0})
insert list node = do
  next ← load node
  assert (null == next)
  head ← load list
  if head == null then store list node else (do tail ← load_tail list; store tail node)
  store_tail list node

unfoldable pub push : Ptr → Ptr → Cmd (Unit {0})
push list node = do
  next ← load node
  assert (null == next)
  head ← load list
  if head == null then store_tail list node else store node head
  store list node

unfoldable pub extract : Ptr → Cmd Ptr
extract list = do
  node ← load list
  if node == null
      then pure null
      else do next ← load node; store list next; store node null; pure node

-- `list_iterate`, with the iterator that it fills in.
unfoldable pub iterate : Ptr → Cmd (Ptr × Iterator)
iterate list = do head ← load list; pure (head, record { prevnext = list; list = list })

unfoldable pub iterator_next : Iterator → Cmd (Ptr × Iterator)
iterator_next iter = do
  curr ← load iter.prevnext
  if curr == null
      then pure (null, iter)
      else do next ← load curr; pure (next, record iter { prevnext = curr })

unfoldable pub iterator_insert : Iterator → Ptr → Cmd (Unit {0})
iterator_insert iter node = do
  curr ← load iter.prevnext
  store iter.prevnext node
  store node curr
  if curr == null then store_tail iter.list node else pure tt

unfoldable pub iterator_remove : Iterator → Cmd Ptr
iterator_remove iter = do
  curr ← load iter.prevnext
  assert (not (curr == null))
  tail ← load_tail iter.list
  if tail == curr then store_tail iter.list iter.prevnext else pure tt
  next ← load curr
  store iter.prevnext next
  store curr null
  load iter.prevnext

-- The loop of `list_contains`, at `curr`.
unfoldable pub contains_from : ℕ → Ptr → Ptr × Iterator → Cmd (Bool × Iterator)
unfolding iterator_next
contains_from zero node (curr, iter) h = out_of_fuel
contains_from (suc fuel) node (curr, iter) h =
    let rest = (iterator_next iter >>= contains_from fuel node) h in
    if curr == null
    then pure (false, iter) h
    else (if curr == node then pure (true, iter) h else rest)

-- The iterator that the caller may ask for is returned beside the answer.
unfoldable pub contains : ℕ → Ptr → Ptr → Cmd (Bool × Iterator)
unfolding contains_from iterate
contains fuel list node = iterate list >>= contains_from fuel node

unfoldable pub remove : ℕ → Ptr → Ptr → Cmd Bool
unfolding contains iterator_remove
remove fuel list node = do
  (found, iter) ← contains fuel list node
  if found then iterator_remove iter >> pure true else pure false

module _ (nodecmp : Ptr → Ptr → ℤ) where
  -- The loop of `list_insert_sorted`, at `curr`: the iterator before the first greater node.
  unfoldable pub sorted_from : ℕ → Ptr → Ptr × Iterator → Cmd Iterator
  unfolding iterator_next
  sorted_from zero node (curr, iter) h = out_of_fuel
  sorted_from (suc fuel) node (curr, iter) h =
      let rest =
        (assert (not (curr == null)) >> (iterator_next iter >>= sorted_from fuel node)) h in
      if nonneg (nodecmp node curr) then rest else pure iter h

  unfoldable pub insert_sorted : ℕ → Ptr → Ptr → Cmd (Unit {0})
  unfolding sorted_from iterate iterator_insert
  insert_sorted fuel list node = do
    next ← load node
    assert (null == next)
    head ← load list
    if head == null then store list node >> store_tail list node else do
      tail ← load_tail list
      if nonneg (nodecmp node tail) then store tail node >> store_tail list node else do
        start ← iterate list
        iter ← sorted_from fuel node start
        iterator_insert iter node

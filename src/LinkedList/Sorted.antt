-- ===== src/LinkedList/Sorted.antt =====
-- The branches of `list_insert_sorted`, and where its walk stops.
use librfn.Common.{
  ℕ, zero, suc, ◌<◌, ◌≡◌, ◌≢◌, refl, true, false, List, [], ◌∷◌, ◌++◌, arith, if◌then◌else◌, length,
}
use librfn.Common.Int.{ℤ, nonneg}
use librfn.LinkedList.{insert, iterate, iterator_insert, sorted_from, insert_sorted}
use librfn.LinkedList.Heap.{Ptr, null, Heap, ok}
use librfn.LinkedList.Links.{last, first, Links}
use librfn.LinkedList.IsList.{IsList, IsFree}
use librfn.LinkedList.Insert.{at, last-ne}

module _ (nodecmp : Ptr → Ptr → ℤ) (n : Ptr) where
  -- The nodes that the new one does not go before, up to the first that it does; and the rest.
  unfoldable pub up_to : List Ptr → List Ptr
  up_to [] = []
  up_to (x ∷ xs) = if nonneg (nodecmp n x) then x ∷ up_to xs else []

  unfoldable pub beyond : List Ptr → List Ptr
  beyond [] = []
  beyond (x ∷ xs) = if nonneg (nodecmp n x) then beyond xs else x ∷ xs

  pub up_to-append-beyond : (xs : List Ptr) → xs ≡ up_to xs ++ beyond xs
  unfolding up_to beyond
  up_to-append-beyond [] = refl
  up_to-append-beyond (x ∷ xs) = ground (arith, up_to-append-beyond xs)

  -- The walk stops at the first greater node, which the last one is at the latest.
  sorted_from-ok :
      {h : Heap} {l : Ptr} (fuel : ℕ) (p : Ptr) (xs : List Ptr)
      → p ≢ null
      → Links h.next p xs null
      → length xs < fuel
      → xs ≢ []
      → nonneg (nodecmp n (last p xs)) ≡ false
      → sorted_from nodecmp fuel n (first xs null, record { prevnext = p; list = l }) h
        ≡ ok (record { prevnext = last p (up_to xs); list = l }) h
  unfolding sorted_from up_to
  sorted_from-ok zero p xs ne links enough some greater = absurd (omega arith)
  sorted_from-ok (suc fuel) p [] ne links enough some greater = absurd (some refl)
  sorted_from-ok (suc fuel) p (x ∷ []) ne links enough some greater = rw greater refl
  sorted_from-ok {h} {l} (suc fuel) p (x ∷ y ∷ xs) ne links enough some greater =
      ground (arith, sorted_from-ok {h = h} {l = l} fuel x (y ∷ xs) links.1 links.2)

module _ (nodecmp : Ptr → Ptr → ℤ) {h : Heap} {l n : Ptr} where
  -- Both quick paths of `list_insert_sorted` do what `list_insert` does.
  pub quick_empty :
      (fuel : ℕ) → IsList h l [] → IsFree h l [] n → insert_sorted nodecmp fuel l n h ≡ insert l n h
  unfolding insert_sorted insert
  quick_empty fuel is free = ground arith

  pub quick_end :
      (fuel : ℕ) (x : Ptr) (xs : List Ptr)
      → IsList h l (x ∷ xs)
      → IsFree h l (x ∷ xs) n
      → nonneg (nodecmp n (last x xs)) ≡ true
      → insert_sorted nodecmp fuel l n h ≡ insert l n h
  unfolding insert_sorted insert
  quick_end fuel x xs is free at_end = ground (arith, last-ne h.next x xs null)

  pub slow :
      (fuel : ℕ) (x : Ptr) (xs : List Ptr)
      → IsList h l (x ∷ xs)
      → IsFree h l (x ∷ xs) n
      → length (x ∷ xs) < fuel
      → nonneg (nodecmp n (last x xs)) ≡ false
      → insert_sorted nodecmp fuel l n h ≡ iterator_insert (at l (up_to nodecmp n (x ∷ xs))) n h
  unfolding insert_sorted iterate
  slow fuel x xs is free enough within =
      ground (
        arith,
        sorted_from-ok nodecmp n {h = h} {l = l} fuel l (x ∷ xs) is.not_null is.links enough,
      )

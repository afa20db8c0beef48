-- ===== src/LinkedList/Keys.antt =====
-- `list_insert_sorted` keeps a sorted list sorted, and puts equals behind equals.
use librfn.Common.{
  ℕ, ◌<◌, ◌≤◌, ◌≡◌, refl, subst, true, List, [], ◌∷◌, ◌++◌, arith, ◌==◌, leb, length, Bool-cases,
  inl, inr,
}
use native.Mathlib.Nat.{le_trans, le_of_lt}
use librfn.Common.Int.{ℤ, nonneg}
use librfn.LinkedList.{insert_sorted}
use librfn.LinkedList.Heap.{Ptr, Heap, Returns}
use librfn.LinkedList.Links.{has, last, has-insert, has-last}
use librfn.LinkedList.IsList.{IsList, IsFree}
use librfn.LinkedList.Insert.{Inserted, insert_lem, iterator_insert_lem}
use librfn.LinkedList.Sorted.{up_to, beyond, up_to-append-beyond, quick_empty, quick_end, slow}

-- The nodes behind are never before.
abbrev pub SortedBy : (Ptr → ℕ) → List Ptr → Type 0
SortedBy key [] = Unit
SortedBy key (x ∷ xs) = ((y : Ptr) → has y xs ≡ true → key x ≤ key y) × SortedBy key xs

-- On these nodes the sign of the client's comparison is that of the difference of two keys.
abbrev pub Compares : (Ptr → Ptr → ℤ) → (Ptr → ℕ) → List Ptr → Type 0
Compares nodecmp key xs =
    (a b : Ptr) → has a xs ≡ true → has b xs ≡ true → nonneg (nodecmp a b) ≡ leb (key b) (key a)

module _ (key : Ptr → ℕ) where
  Sorted-insert :
      (n : Ptr) (pre post : List Ptr)
      → ((y : Ptr) → has y pre ≡ true → key y ≤ key n)
      → ((y : Ptr) → has y post ≡ true → key n ≤ key y)
      → SortedBy key (pre ++ post)
      → SortedBy key (pre ++ (n ∷ post))
  Sorted-insert n [] post below above s = (above, s)
  Sorted-insert n (x ∷ pre) post below above s = (
    λ y i. elim (Bool-cases (y == n)) [
      | inl here ↦ ground (arith, below x)
      | inr there ↦ s.0 y (ground (arith, has-insert y n pre post))
    ],
    Sorted-insert n pre post (λ y i. below y (ground arith)) above s.1,
  )

  le-last :
      (y x : Ptr) (xs : List Ptr)
      → SortedBy key (x ∷ xs)
      → has y (x ∷ xs) ≡ true
      → key y ≤ key (last x xs)
  le-last y x [] s i = ground arith
  le-last y x (z ∷ xs) s i = elim (Bool-cases (y == x)) [
    | inl here ↦ ground (arith, s.0 z, le-last z z xs s.1)
    | inr there ↦ le-last y z xs s.1 (ground arith)
  ]

module _ (key : Ptr → ℕ) (nodecmp : Ptr → Ptr → ℤ) (n : Ptr) where
  -- The comparison of the new node with each of the others.
  abbrev Decides : List Ptr → Type 0
  Decides xs = (x : Ptr) → has x xs ≡ true → nonneg (nodecmp n x) ≡ leb (key x) (key n)

  decided : (xs : List Ptr) → Compares nodecmp key (n ∷ xs) → Decides xs
  decided xs c x i = c n x (ground arith) (ground arith)

  up_to-le :
      (xs : List Ptr) → Decides xs → (y : Ptr) → has y (up_to nodecmp n xs) ≡ true → key y ≤ key n
  unfolding up_to
  up_to-le [] d y i = cc
  up_to-le (x ∷ xs) d y i = ground (arith, d x, up_to-le xs (λ z j. d z (ground arith)) y)

  lt-beyond :
      (xs : List Ptr)
      → SortedBy key xs
      → Decides xs
      → (y : Ptr) → has y (beyond nodecmp n xs) ≡ true
      → key n < key y
  unfolding beyond
  lt-beyond [] s d y i = cc
  lt-beyond (x ∷ xs) s d y i =
      ground (arith, d x, s.0 y, lt-beyond xs s.1 (λ z j. d z (ground arith)) y)

  none_beyond :
      (xs : List Ptr)
      → ((y : Ptr) → has y xs ≡ true → key y ≤ key n)
      → Decides xs
      → (up_to nodecmp n xs ≡ xs) × (beyond nodecmp n xs ≡ [])
  unfolding up_to beyond
  none_beyond [] all d = (refl, refl)
  none_beyond (x ∷ xs) all d =
      ground (
        arith,
        d x,
        all x,
        none_beyond xs (λ y i. all y (ground arith)) (λ z j. d z (ground arith)),
      )

-- Where the node goes in a list whose order the comparison knows.
pub record Placed (key : Ptr → ℕ) (n : Ptr) (pre post : List Ptr) : Type 0 where
  pub sorted : SortedBy key (pre ++ (n ∷ post))
  pub none_greater_before : (y : Ptr) → has y pre ≡ true → key y ≤ key n
  pub only_greater_behind : (y : Ptr) → has y post ≡ true → key n < key y

module _ (key : Ptr → ℕ) (nodecmp : Ptr → Ptr → ℤ) {h : Heap} {l n : Ptr} where
  inserts :
      (fuel : ℕ) (xs : List Ptr)
      → IsList h l xs
      → IsFree h l xs n
      → SortedBy key xs
      → Decides key nodecmp n xs
      → length xs < fuel
      → Returns
          (Inserted h l n (up_to nodecmp n xs) (beyond nodecmp n xs))
          (insert_sorted nodecmp fuel l n h)
  unfolding up_to beyond
  inserts fuel [] is free s d enough = rw (quick_empty nodecmp fuel is free) (insert_lem is free)
  inserts fuel (x ∷ xs) is free s d enough = elim (Bool-cases (nonneg (nodecmp n (last x xs)))) [
    | inl at_end ↦
        let (whole, nothing) =
          none_beyond key nodecmp n (x ∷ xs)
            (λ y i.
              le_trans (le-last key y x xs s i) (ground (arith, d (last x xs), has-last x xs)))
            d in
        rw (quick_end nodecmp fuel x xs is free at_end, whole, nothing) (insert_lem is free)
    | inr within ↦
        let split = up_to-append-beyond nodecmp n (x ∷ xs) in
        rw (slow nodecmp fuel x xs is free enough within) (
          iterator_insert_lem (up_to nodecmp n (x ∷ xs)) (beyond nodecmp n (x ∷ xs))
            (subst (IsList h l) split is) (subst (λ ys. IsFree h l ys n) split free))
  ]

  -- With more fuel than the list has nodes, `list_insert_sorted` puts a free node into a sorted
  -- list behind all nodes that are not greater and before all that are, keeps the others in their
  -- order, and so keeps the list sorted, if the comparison orders these nodes by some key.
  pub insert_sorted_lem :
      {xs : List Ptr} (fuel : ℕ)
      → IsList h l xs
      → IsFree h l xs n
      → SortedBy key xs
      → Compares nodecmp key (n ∷ xs)
      → length xs < fuel
      → (pre : List Ptr) × (post : List Ptr) × (xs ≡ pre ++ post)
        × Placed key n pre post
        × Returns (Inserted h l n pre post) (insert_sorted nodecmp fuel l n h)
  insert_sorted_lem {xs} fuel is free s c enough = (
    up_to nodecmp n xs,
    beyond nodecmp n xs,
    split,
    record {
      sorted =
          Sorted-insert key n (up_to nodecmp n xs) (beyond nodecmp n xs) below
            (λ y i. le_of_lt (above y i)) (subst (SortedBy key) split s);
      none_greater_before = below;
      only_greater_behind = above;
    },
    inserts fuel xs is free s d enough,
  )
    where
      split : xs ≡ up_to nodecmp n xs ++ beyond nodecmp n xs
      split = up_to-append-beyond nodecmp n xs

      d : Decides key nodecmp n xs
      d = decided key nodecmp n xs c

      below : (y : Ptr) → has y (up_to nodecmp n xs) ≡ true → key y ≤ key n
      below = up_to-le key nodecmp n xs d

      above : (y : Ptr) → has y (beyond nodecmp n xs) ≡ true → key n < key y
      above = lt-beyond key nodecmp n xs s d

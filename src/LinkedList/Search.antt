-- ===== src/LinkedList/Search.antt =====
-- `list_contains` and `list_remove`: the walk ends, finds what is there, and takes that out.
use librfn.Common.{
  ℕ, zero, suc, ◌<◌, ◌≡◌, ◌≢◌, refl, subst, Bool, true, false, List, [], ◌∷◌, ◌++◌, arith, ◌==◌,
  if◌then◌else◌, length, Bool-cases, inl, inr,
}
use librfn.LinkedList.{iterator_next, iterator_remove, iterate, contains_from, contains, remove}
use librfn.LinkedList.Heap.{Ptr, null, Heap, Run, ok, fault, out_of_fuel, Returns, and_then}
use librfn.LinkedList.Links.{has, last, first, Links, Links-first}
use librfn.LinkedList.IsList.{IsList}
use librfn.LinkedList.Insert.{at}
use librfn.LinkedList.Extract.{Removed, iterator_remove_lem}

-- The nodes before the first that is `n`, and those behind it.
unfoldable pub before : Ptr → List Ptr → List Ptr
before n [] = []
before n (x ∷ xs) = if x == n then [] else x ∷ before n xs

unfoldable pub after : Ptr → List Ptr → List Ptr
after n [] = []
after n (x ∷ xs) = if x == n then xs else after n xs

pub before-append-after :
    (n : Ptr) (xs : List Ptr) → has n xs ≡ true → xs ≡ before n xs ++ (n ∷ after n xs)
unfolding before after
before-append-after n [] h = cc
before-append-after n (x ∷ xs) h = ground (arith, before-append-after n xs)

-- One step of an iterator that stands before a node.
pub next-ok :
    {h : Heap} {l p x : Ptr} (xs : List Ptr)
    → p ≢ null
    → Links h.next p (x ∷ xs) null
    → iterator_next (record { prevnext = p; list = l }) h
      ≡ ok (first xs null, record { prevnext = x; list = l }) h
unfolding iterator_next
next-ok {h} {x} xs ne links = ground (arith, Links-first h.next x xs null)

contains_from-ok :
    {h : Heap} {l : Ptr} (n : Ptr) (fuel : ℕ) (p : Ptr) (xs : List Ptr)
    → p ≢ null
    → Links h.next p xs null
    → length xs < fuel
    → contains_from fuel n (first xs null, record { prevnext = p; list = l }) h
      ≡ ok (has n xs, record { prevnext = last p (before n xs); list = l }) h
unfolding contains_from before
contains_from-ok n zero p xs ne links enough = absurd (omega arith)
contains_from-ok n (suc fuel) p [] ne links enough = refl
contains_from-ok {h} {l} n (suc fuel) p (x ∷ xs) ne links enough =
    rw (next-ok {h = h} {l = l} xs ne links)
      (ground (arith, contains_from-ok {h = h} {l = l} n fuel x xs links.1 links.2))

-- With more fuel than the list has nodes, `list_contains` says whether the node is there and
-- writes nothing; the iterator is left at the node, or at the end.
pub contains_lem :
    {h : Heap} {l : Ptr} {xs : List Ptr} (n : Ptr) (fuel : ℕ)
    → IsList h l xs
    → length xs < fuel
    → contains fuel l n h ≡ ok (has n xs, at l (before n xs)) h
unfolding contains iterate
contains_lem {h} {l} {xs} n fuel is enough = ground (
  arith,
  Links-first h.next l xs null is.links,
  contains_from-ok {h = h} {l = l} n fuel l xs is.not_null is.links enough,
)

then_true :
    (P : Ptr → Type 0) (Q : Heap → Type 0) (r : Run Ptr)
    → Returns (λ p g. P p × Q g) r
    → Returns (λ b g. (b ≡ true) × Q g) (and_then r (λ _. ok true))
then_true P Q (ok p g) h = (refl, h.1)
then_true P Q fault h = absurd h
then_true P Q out_of_fuel h = absurd h

-- What `list_remove` of `n` does to a list of the nodes `xs`, with its answer.
abbrev pub Outcome : Heap → Ptr → Ptr → List Ptr → Bool → Heap → Type 0
Outcome h l n xs true g = Removed h l n (before n xs) (after n xs) g
Outcome h l n xs false g = g ≡ h

-- With more fuel than the list has nodes, `list_remove` says whether the node was in the list; if
-- it was, the node is out and the others are as before, and if not, nothing has changed.
pub remove_lem :
    {h : Heap} {l : Ptr} {xs : List Ptr} (n : Ptr) (fuel : ℕ)
    → IsList h l xs
    → length xs < fuel
    → Returns (λ b g. (b ≡ has n xs) × Outcome h l n xs (has n xs) g) (remove fuel l n h)
unfolding remove
remove_lem {h} {l} {xs} n fuel is enough = elim (Bool-cases (has n xs)) [
  | inl found ↦
      rw (contains_lem n fuel is enough, found)
        (then_true (λ p. p ≡ first (after n xs) null) (Removed h l n (before n xs) (after n xs))
          (iterator_remove (at l (before n xs)) h)
          (iterator_remove_lem n (before n xs) (after n xs)
            (subst (IsList h l) (before-append-after n xs found) is)))
  | inr missing ↦ rw (contains_lem n fuel is enough, missing) (refl, refl)
]

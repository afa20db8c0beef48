-- ===== src/LinkedList/IsList.antt =====
-- What it is for a `list_t` to hold a sequence of nodes, and what a call leaves alone.
use librfn.Common.{◌≡◌, ◌≢◌, ◌∙◌, true, false, List, [], ◌∷◌, arith}
use librfn.LinkedList.Heap.{Ptr, null, Heap}
use librfn.LinkedList.Links.{has, Distinct, last, Links, Links-first, Links-restart}

-- The tail pointer counts only while the list has a node.
abbrev pub TailAt : Ptr → List Ptr → Type 0
TailAt t [] = Unit
TailAt t (x ∷ xs) = t ≡ last x xs

-- The list at `l` has the distinct nodes `xs`, in this order.
pub record IsList (h : Heap) (l : Ptr) (xs : List Ptr) : Type 0 where
  pub not_null : l ≢ null
  pub distinct : Distinct (l ∷ xs)
  pub links : Links h.next l xs null
  pub tail_at : TailAt (h.tail l) xs

-- A node that a client may hand over: it is not in the list, and its link is cleared.
pub record IsFree (h : Heap) (l : Ptr) (xs : List Ptr) (n : Ptr) : Type 0 where
  pub node_not_null : n ≢ null
  pub unlinked : h.next n ≡ null
  pub outside : has n (l ∷ xs) ≡ false

-- `g` differs from `h` at most at the words of the list at `l` and of the nodes `xs`.
pub record SameOutside (l : Ptr) (xs : List Ptr) (h g : Heap) : Type 0 where
  pub same_next : (b : Ptr) → has b (l ∷ xs) ≡ false → g.next b ≡ h.next b
  pub same_tail : (b : Ptr) → b ≢ l → g.tail b ≡ h.tail b

-- A list stays what it is while others change.
pub IsList-frame :
    {h g : Heap} {l m : Ptr} {xs ys : List Ptr}
    → SameOutside l xs h g
    → m ≢ l
    → ((b : Ptr) → has b (m ∷ ys) ≡ true → has b (l ∷ xs) ≡ false)
    → IsList h m ys
    → IsList g m ys
IsList-frame {h} {g} {l} {m} {xs} {ys} same ne apart is = record {
  not_null = is.not_null;
  distinct = is.distinct;
  links =
      Links-restart h.next g.next m m ys null
        (same.same_next m (apart m (ground arith)) ∙ Links-first h.next m ys null is.links)
        (λ c i. same.same_next c (apart c (ground arith))) is.links;
  tail_at = rw (same.same_tail m ne) is.tail_at;
}

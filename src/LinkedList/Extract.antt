-- ===== src/LinkedList/Extract.antt =====
-- `list_extract`, `list_iterator_remove` and the iterator's steps.
use librfn.Common.{◌≡◌, ◌≢◌, refl, sym, ◌∙◌, false, List, [], ◌∷◌, ◌++◌, arith}
use librfn.LinkedList.{extract, iterator_remove}
use librfn.LinkedList.Heap.{Ptr, null, Heap, update, ok, Returns}
use librfn.LinkedList.Links.{
  has, last, first, Links-first, Links-split, has-last, has-append, ne-last, Distinct-remove,
}
use librfn.LinkedList.IsList.{IsList, IsFree, SameOutside}
use librfn.LinkedList.Change.{LinksOut, LinksOut-IsList, OutTail, TailAt-end}
use librfn.LinkedList.Insert.{at, gap-next, head-ne}

-- The node is out of the list and free to be put into it again, and nothing else has changed.
abbrev pub Removed : Heap → Ptr → Ptr → List Ptr → List Ptr → Heap → Type 0
Removed h l n pre post g =
    IsList g l (pre ++ post) × IsFree g l (pre ++ post) n × SameOutside l (n ∷ (pre ++ post)) h g

module _ {h g : Heap} {l n : Ptr} (pre post : List Ptr) where
  LinksOut-Removed :
      LinksOut h g l n pre post → IsList h l (pre ++ (n ∷ post)) → Removed h l n pre post g
  LinksOut-Removed w is =
      let (kept, out, same) = LinksOut-IsList pre post w is in
      (
        kept,
        record { node_not_null = head-ne pre n post is; unlinked = w.at_node; outside = out },
        same,
      )

extract-nil : {h : Heap} {l : Ptr} → IsList h l [] → extract l h ≡ ok null h
unfolding extract
extract-nil is = ground arith

extract-cons :
    {h : Heap} {l x : Ptr} {xs : List Ptr}
    → IsList h l (x ∷ xs)
    → extract l h ≡ ok x (record h { next = update (update h.next l (h.next x)) x null })
unfolding extract
extract-cons is = ground arith

same_end : (t : Ptr) (rest : List Ptr) → OutTail t t [] rest
same_end t [] = tt
same_end t (y ∷ ys) = refl

-- What `list_extract` does to a list of the given nodes.
abbrev pub Extracted : Heap → Ptr → List Ptr → Ptr → Heap → Type 0
Extracted h l [] n g = (n ≡ null) × (g ≡ h)
Extracted h l (x ∷ rest) n g = (n ≡ x) × Removed h l x [] rest g

-- `list_extract` takes the first node out, with its link cleared; of an empty list it gives NULL
-- and changes nothing.
pub extract_lem :
    {h : Heap} {l : Ptr} (xs : List Ptr) → IsList h l xs → Returns (Extracted h l xs) (extract l h)
extract_lem [] is = rw (extract-nil is) (refl, refl)
extract_lem {h} {l} (x ∷ rest) is = rw (extract-cons is) (
  refl,
  LinksOut-Removed [] rest
      (record {
        at_gap = ground arith;
        at_node = ground arith;
        elsewhere = λ c p q. ground arith;
        new_tail = same_end (h.tail l) rest;
        same_tail = λ b p. refl;
      })
      is,
)

-- The tail pointer is written when the last node goes: with the address of the gap before it.
abbrev tail_before : Heap → Ptr → List Ptr → List Ptr → Ptr → Ptr
tail_before h l pre [] = update h.tail l (last l pre)
tail_before h l pre (y ∷ ys) = h.tail

module _ {h : Heap} {l : Ptr} (n : Ptr) (pre post : List Ptr)
    (is : IsList h l (pre ++ (n ∷ post))) where
  node-next : h.next n ≡ first post null
  node-next = Links-first h.next n post null (Links-split h.next l pre (n ∷ post) null is.links).1.2

  -- The node is outside both parts of the list.
  node-outside : has n (l ∷ (pre ++ post)) ≡ false
  node-outside = (Distinct-remove n (l ∷ pre) post is.distinct).1

  gap-ne : last l pre ≢ n
  gap-ne e = ground (arith, has-last l pre, has-append n pre post, node-outside)

-- The tail pointer is at the node exactly when nothing follows it.
tail_here :
    {h : Heap} {l : Ptr} (n : Ptr) (pre : List Ptr) → IsList h l (pre ++ (n ∷ [])) → h.tail l ≡ n
tail_here {h} {l} n pre is = (TailAt-end (h.tail l) n pre []).0 is.tail_at

tail_elsewhere :
    {h : Heap} {l : Ptr} (n : Ptr) (pre : List Ptr) (y : Ptr) (ys : List Ptr)
    → IsList h l (pre ++ (n ∷ y ∷ ys))
    → h.tail l ≢ n
tail_elsewhere {h} {l} n pre y ys is e =
    ne-last n y ys (ground (arith, node-outside n pre (y ∷ ys) is, has-append n pre (y ∷ ys)))
      (sym e ∙ (TailAt-end (h.tail l) n pre (y ∷ ys)).0 is.tail_at)

iterator_remove-ok :
    {h : Heap} {l : Ptr} (n : Ptr) (pre post : List Ptr)
    → IsList h l (pre ++ (n ∷ post))
    → iterator_remove (at l pre) h
      ≡ ok (first post null) (record {
        next = update (update h.next (last l pre) (first post null)) n null;
        tail = tail_before h l pre post;
      })
unfolding iterator_remove
iterator_remove-ok n pre [] is = ground (
  arith,
  gap-next pre (n ∷ []) is,
  head-ne pre n [] is,
  node-next n pre [] is,
  gap-ne n pre [] is,
  tail_here n pre is,
)
iterator_remove-ok n pre (y ∷ ys) is = ground (
  arith,
  gap-next pre (n ∷ y ∷ ys) is,
  head-ne pre n (y ∷ ys) is,
  node-next n pre (y ∷ ys) is,
  gap-ne n pre (y ∷ ys) is,
  tail_elsewhere n pre y ys is,
)

-- `list_iterator_remove` takes out the node at the iterator's place, wherever that is, keeps the
-- tail pointer right, and returns the node that follows.
pub iterator_remove_lem :
    {h : Heap} {l : Ptr} (n : Ptr) (pre post : List Ptr)
    → IsList h l (pre ++ (n ∷ post))
    → Returns
        (λ next g. (next ≡ first post null) × Removed h l n pre post g)
        (iterator_remove (at l pre) h)
iterator_remove_lem {h} {l} n pre post is = rw (iterator_remove-ok n pre post is) (
  refl,
  LinksOut-Removed pre post
      (record {
        at_gap = ground (arith, gap-ne n pre post is, node-next n pre post is);
        at_node = ground arith;
        elsewhere = λ c p q. ground arith;
        new_tail = new_tail pre post;
        same_tail = same_tail post;
      })
      is,
)
  where
    new_tail : (pre post : List Ptr) → OutTail (h.tail l) (tail_before h l pre post l) pre post
    new_tail pre (y ∷ ys) = refl
    new_tail [] [] = tt
    new_tail (x ∷ pre) [] = ground arith

    same_tail : (post : List Ptr) (b : Ptr) → b ≢ l → tail_before h l pre post b ≡ h.tail b
    same_tail [] b p = ground arith
    same_tail (y ∷ ys) b p = refl

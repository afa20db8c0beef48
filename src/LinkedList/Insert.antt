-- ===== src/LinkedList/Insert.antt =====
-- `list_insert`, `list_push` and `list_iterator_insert` put the node where they should.
use librfn.Common.{◌≡◌, ◌≢◌, refl, List, [], ◌∷◌, ◌++◌, append-nil, arith}
use librfn.LinkedList.{Iterator, insert, push, iterator_insert}
use librfn.LinkedList.Heap.{Ptr, null, Heap, update, ok, Returns}
use librfn.LinkedList.Links.{last, first, Links, Links-last, Links-split, has-last, has-append}
use librfn.LinkedList.IsList.{IsList, IsFree, SameOutside}
use librfn.LinkedList.Change.{LinksIn-IsList, NewTail}

-- The node stands between `pre` and `post`, and nothing else has changed.
abbrev pub Inserted : {A : Type 0} → Heap → Ptr → Ptr → List Ptr → List Ptr → A → Heap → Type 0
Inserted h l n pre post _ g = IsList g l (pre ++ (n ∷ post)) × SameOutside l (n ∷ (pre ++ post)) h g

pub last-ne :
    (f : Ptr → Ptr) (a : Ptr) (xs : List Ptr) (e : Ptr)
    → a ≢ null
    → Links f a xs e
    → last a xs ≢ null
last-ne f a [] e ne l = ne
last-ne f a (x ∷ xs) e ne l = last-ne f x xs e l.1 l.2

-- Both branches of `list_insert` write the last word of the list, which is `head` if it is empty.
pub insert-ok :
    {h : Heap} {l n : Ptr} (xs : List Ptr)
    → IsList h l xs
    → IsFree h l xs n
    → insert l n h ≡ ok tt (record { next = update h.next (last l xs) n; tail = update h.tail l n })
unfolding insert
insert-ok [] is free = ground arith
insert-ok {h} {l} {n} (x ∷ xs) is free = ground (arith, last-ne h.next x xs null)

-- `list_insert` puts a free node at the end of the list.
pub insert_lem :
    {h : Heap} {l n : Ptr} {xs : List Ptr}
    → IsList h l xs
    → IsFree h l xs n
    → Returns (Inserted h l n xs []) (insert l n h)
insert_lem {h} {l} {n} {xs} is free = rw (insert-ok xs is free) (
    LinksIn-IsList xs []
      (record {
        at_gap = ground arith;
        at_node = ground (arith, last_ne);
        elsewhere = λ c p q. ground arith;
        new_tail = ground arith;
        same_tail = λ b p. ground arith;
      })
      (rw append-nil is) (rw append-nil free))
  where
    last_ne : n ≢ last l xs
    last_ne e = ground (arith, has-last l xs, free.outside)

push-nil :
    {h : Heap} {l n : Ptr}
    → IsList h l []
    → IsFree h l [] n
    → push l n h ≡ ok tt (record { next = update h.next l n; tail = update h.tail l n })
unfolding push
push-nil is free = ground arith

push-cons :
    {h : Heap} {l n x : Ptr} {xs : List Ptr}
    → IsList h l (x ∷ xs)
    → IsFree h l (x ∷ xs) n
    → push l n h ≡ ok tt (record h { next = update (update h.next n x) l n })
unfolding push
push-cons is free = ground arith

pushed :
    {h : Heap} {l n : Ptr} (xs : List Ptr)
    → IsList h l xs
    → IsFree h l xs n
    → Returns (Inserted h l n [] xs) (push l n h)
pushed [] is free = rw (push-nil is free) (
    LinksIn-IsList [] []
      (record {
        at_gap = ground arith;
        at_node = ground arith;
        elsewhere = λ c p q. ground arith;
        new_tail = ground arith;
        same_tail = λ b p. ground arith;
      })
      is free)
pushed (x ∷ xs) is free = rw (push-cons is free) (
    LinksIn-IsList [] (x ∷ xs)
      (record {
        at_gap = ground arith;
        at_node = ground arith;
        elsewhere = λ c p q. ground arith;
        new_tail = refl;
        same_tail = λ b p. refl;
      })
      is free)

-- `list_push` puts a free node at the front of the list.
pub push_lem :
    {h : Heap} {l n : Ptr} {xs : List Ptr}
    → IsList h l xs
    → IsFree h l xs n
    → Returns (Inserted h l n [] xs) (push l n h)
push_lem {xs} is free = pushed xs is free

-- The iterator that stands before `post`.
abbrev pub at : Ptr → List Ptr → Iterator
at l pre = record { prevnext = last l pre; list = l }

-- The word before `post`, and that it is not at NULL.
pub gap-next :
    {h : Heap} {l : Ptr} (pre post : List Ptr)
    → IsList h l (pre ++ post)
    → (h.next (last l pre) ≡ first post null) × (last l pre ≢ null)
gap-next {h} {l} pre post is =
    let (before, after) = Links-split h.next l pre post null is.links in
    (
      Links-last h.next l pre (first post null) before,
      last-ne h.next l pre (first post null) is.not_null before,
    )

pub head-ne :
    {h : Heap} {l : Ptr} (pre : List Ptr) (y : Ptr) (ys : List Ptr)
    → IsList h l (pre ++ (y ∷ ys))
    → y ≢ null
head-ne {h} {l} pre y ys is = (Links-split h.next l pre (y ∷ ys) null is.links).1.1

-- The tail pointer is written when nothing follows.
abbrev tail_after : Heap → Ptr → Ptr → List Ptr → Ptr → Ptr
tail_after h l n [] = update h.tail l n
tail_after h l n (y ∷ ys) = h.tail

iterator_insert-ok :
    {h : Heap} {l n : Ptr} (pre post : List Ptr)
    → IsList h l (pre ++ post)
    → IsFree h l (pre ++ post) n
    → iterator_insert (at l pre) n h
      ≡ ok tt (record {
        next = update (update h.next (last l pre) n) n (first post null);
        tail = tail_after h l n post;
      })
unfolding iterator_insert
iterator_insert-ok pre [] is free = ground (arith, gap-next pre [] is)
iterator_insert-ok pre (y ∷ ys) is free =
    ground (arith, gap-next pre (y ∷ ys) is, head-ne pre y ys is)

-- `list_iterator_insert` puts a free node at the iterator's place, wherever that is.
pub iterator_insert_lem :
    {h : Heap} {l n : Ptr} (pre post : List Ptr)
    → IsList h l (pre ++ post)
    → IsFree h l (pre ++ post) n
    → Returns (Inserted h l n pre post) (iterator_insert (at l pre) n h)
iterator_insert_lem {h} {l} {n} pre post is free = rw (iterator_insert-ok pre post is free) (
    LinksIn-IsList pre post
      (record {
        at_gap = ground (arith, apart);
        at_node = ground arith;
        elsewhere = λ c p q. ground arith;
        new_tail = new_tail post;
        same_tail = same_tail post;
      })
      is free)
  where
    apart : last l pre ≢ n
    apart e = ground (arith, has-last l pre, has-append n pre post, free.outside)

    new_tail : (post : List Ptr) → NewTail n (h.tail l) (tail_after h l n post l) post
    new_tail [] = ground arith
    new_tail (y ∷ ys) = refl

    same_tail : (post : List Ptr) (b : Ptr) → b ≢ l → tail_after h l n post b ≡ h.tail b
    same_tail [] b p = ground arith
    same_tail (y ∷ ys) b p = refl

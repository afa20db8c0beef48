-- ===== src/LinkedList/Change.antt =====
-- The writes that put a node into a list, and those that take one out, keep it a list.
use librfn.Common.{◌≡◌, ◌≢◌, ◌↔◌, refl, sym, ◌∙◌, false, List, [], ◌∷◌, ◌++◌, arith}
use librfn.LinkedList.Heap.{Ptr, null, Heap}
use librfn.LinkedList.Links.{
  has, last, first, has-append, ne-last, Distinct-insert, Distinct-remove,
}
use librfn.LinkedList.Splice.{splice_in, splice_out}
use librfn.LinkedList.IsList.{TailAt, IsList, IsFree, SameOutside}

last-append : (a : Ptr) (xs ys : List Ptr) → last a (xs ++ ys) ≡ last (last a xs) ys
last-append a [] ys = refl
last-append a (x ∷ xs) ys = last-append x xs ys

-- The tail pointer after `n` has come to stand before `post`.
abbrev pub NewTail : Ptr → Ptr → Ptr → List Ptr → Type 0
NewTail n old new [] = new ≡ n
NewTail n old new (y ∷ ys) = new ≡ old

pub TailAt-end : (t y : Ptr) (pre ys : List Ptr) → TailAt t (pre ++ (y ∷ ys)) ↔ (t ≡ last y ys)
TailAt-end t y [] ys = (λ e. e, λ e. e)
TailAt-end t y (x ∷ pre) ys =
    (λ e. e ∙ last-append x pre (y ∷ ys), λ e. e ∙ sym (last-append x pre (y ∷ ys)))

TailAt-insert :
    (n old new : Ptr) (pre post : List Ptr)
    → NewTail n old new post
    → TailAt old (pre ++ post)
    → TailAt new (pre ++ (n ∷ post))
TailAt-insert n old new pre [] e at = (TailAt-end new n pre []).1 e
TailAt-insert n old new pre (y ∷ ys) e at =
    (TailAt-end new n pre (y ∷ ys)).1 (e ∙ (TailAt-end old y pre ys).0 at)

-- The tail pointer after the node between `pre` and `post` has gone.
abbrev pub OutTail : Ptr → Ptr → List Ptr → List Ptr → Type 0
OutTail old new pre (y ∷ ys) = new ≡ old
OutTail old new [] [] = Unit
OutTail old new (x ∷ pre) [] = new ≡ last x pre

TailAt-remove :
    (n old new : Ptr) (pre post : List Ptr)
    → OutTail old new pre post
    → TailAt old (pre ++ (n ∷ post))
    → TailAt new (pre ++ post)
TailAt-remove n old new pre (y ∷ ys) e at =
    (TailAt-end new y pre ys).1 (e ∙ (TailAt-end old n pre (y ∷ ys)).0 at)
TailAt-remove n old new [] [] e at = tt
TailAt-remove n old new (x ∷ pre) [] e at = e ∙ sym (last-append x pre [])

module _ (h g : Heap) (l n : Ptr) (pre post : List Ptr) where
  -- What the writes of an insertion between `pre` and `post` come to.
  pub record LinksIn : Type 0 where
    pub at_gap : g.next (last l pre) ≡ n
    pub at_node : g.next n ≡ first post null
    pub elsewhere : (c : Ptr) → c ≢ last l pre → c ≢ n → g.next c ≡ h.next c
    pub new_tail : NewTail n (h.tail l) (g.tail l) post
    pub same_tail : (b : Ptr) → b ≢ l → g.tail b ≡ h.tail b

  -- What the writes of a removal from between them come to.
  pub record LinksOut : Type 0 where
    pub at_gap : g.next (last l pre) ≡ h.next n
    pub at_node : g.next n ≡ null
    pub elsewhere : (c : Ptr) → c ≢ last l pre → c ≢ n → g.next c ≡ h.next c
    pub new_tail : OutTail (h.tail l) (g.tail l) pre post
    pub same_tail : (b : Ptr) → b ≢ l → g.tail b ≡ h.tail b

gap_in :
    (l : Ptr) (pre post : List Ptr) (c : Ptr) → has c (l ∷ (pre ++ post)) ≡ false → c ≢ last l pre
gap_in l pre post c out = ne-last c l pre (ground (arith, has-append c pre post))

module _ {h g : Heap} {l n : Ptr} (pre post : List Ptr) where
  pub LinksIn-IsList :
      LinksIn h g l n pre post
      → IsList h l (pre ++ post)
      → IsFree h l (pre ++ post) n
      → IsList g l (pre ++ (n ∷ post)) × SameOutside l (n ∷ (pre ++ post)) h g
  LinksIn-IsList w is free = (
    record {
      not_null = is.not_null;
      distinct = Distinct-insert n (l ∷ pre) post is.distinct free.outside;
      links =
          splice_in h.next g.next l n pre post is.distinct free.outside free.node_not_null w.at_gap
            w.at_node w.elsewhere is.links;
      tail_at = TailAt-insert n (h.tail l) (g.tail l) pre post w.new_tail is.tail_at;
    },
    record {
      same_next = λ b out. w.elsewhere b (gap_in l pre post b (ground arith)) (ground arith);
      same_tail = w.same_tail;
    },
  )

  pub LinksOut-IsList :
      LinksOut h g l n pre post
      → IsList h l (pre ++ (n ∷ post))
      → IsList g l (pre ++ post)
        × (has n (l ∷ (pre ++ post)) ≡ false)
        × SameOutside l (n ∷ (pre ++ post)) h g
  LinksOut-IsList w is =
      let (d, out) = Distinct-remove n (l ∷ pre) post is.distinct in
      (
        record {
          not_null = is.not_null;
          distinct = d;
          links = splice_out h.next g.next l n pre post is.distinct w.at_gap w.elsewhere is.links;
          tail_at = TailAt-remove n (h.tail l) (g.tail l) pre post w.new_tail is.tail_at;
        },
        out,
        record {
          same_next = λ b out. w.elsewhere b (gap_in l pre post b (ground arith)) (ground arith);
          same_tail = w.same_tail;
        },
      )

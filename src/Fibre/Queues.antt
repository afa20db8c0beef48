-- ===== src/Fibre/Queues.antt =====
-- The run queue and the timer queue in memory, and the sequences of fibres that they stand for.
use librfn.Common.{
  ◌≡◌, ◌≢◌, refl, sym, ap, ◌∙◌, Bool, true, false, List, [], ◌∷◌, ◌++◌, arith, ◌==◌, if◌then◌else◌,
  length, ◌≤◌, Bool-cases, inl, inr,
}
use librfn.LinkedList.Heap.{Ptr, null, Heap}
use librfn.LinkedList.Links.{has, has-insert}
use librfn.LinkedList.IsList.{IsList, IsFree, SameOutside, IsList-frame}
use librfn.LinkedList.Search.{before, after}

-- The sequence without the first that is `f`.
unfoldable pub without : Ptr → List Ptr → List Ptr
without f [] = []
without f (x ∷ xs) = if x == f then xs else x ∷ without f xs

pub without-split :
    (f : Ptr) (xs : List Ptr) → has f xs ≡ true → before f xs ++ after f xs ≡ without f xs
unfolding without before after
without-split f [] h = cc
without-split f (x ∷ xs) h = ground (arith, without-split f xs)

pub without-absent : (f : Ptr) (xs : List Ptr) → has f xs ≡ false → without f xs ≡ xs
unfolding without
without-absent f [] h = refl
without-absent f (x ∷ xs) h = ground (arith, without-absent f xs)

pub has-without_ne : (p f : Ptr) (xs : List Ptr) → p ≢ f → has p (without f xs) ≡ has p xs
unfolding without
has-without_ne p f [] ne = refl
has-without_ne p f (x ∷ xs) ne = ground (arith, has-without_ne p f xs)

pub length-without : (f : Ptr) (xs : List Ptr) → length (without f xs) ≤ length xs
unfolding without
length-without f [] = omega arith
length-without f (x ∷ xs) = ground (arith, length-without f xs)

-- No fibre lies where NULL or one of two lists does.
pub record Fibres (fibres : Ptr → Bool) (a b : Ptr) : Type 0 where
  pub differ : a ≢ b
  pub not_null : fibres null ≡ false
  pub not_first : fibres a ≡ false
  pub not_second : fibres b ≡ false

-- Every fibre is on at most one of the two lists, and its link is cleared while it is on neither.
-- `fibres` says which addresses are those of fibres.
pub record Queued (fibres : Ptr → Bool) (a b : Ptr) (h : Heap) (xs ys : List Ptr) : Type 0 where
  pub first_list : IsList h a xs
  pub second_list : IsList h b ys
  pub first_fibres : (p : Ptr) → has p xs ≡ true → fibres p ≡ true
  pub second_fibres : (p : Ptr) → has p ys ≡ true → fibres p ≡ true
  pub apart : (p : Ptr) → has p xs ≡ true → has p ys ≡ false
  pub idle : (p : Ptr) → fibres p ≡ true → has p xs ≡ false → has p ys ≡ false → h.next p ≡ null

module _ {fibres : Ptr → Bool} {a b : Ptr} where
  pub Fibres-swap : Fibres fibres a b → Fibres fibres b a
  Fibres-swap w = record {
    differ = λ e. w.differ (sym e);
    not_null = w.not_null;
    not_first = w.not_second;
    not_second = w.not_first;
  }

  pub Queued-swap :
      {h : Heap} {xs ys : List Ptr} → Queued fibres a b h xs ys → Queued fibres b a h ys xs
  Queued-swap {h} {xs} {ys} q = record {
    first_list = q.second_list;
    second_list = q.first_list;
    first_fibres = q.second_fibres;
    second_fibres = q.first_fibres;
    apart = λ p on. ground (arith, q.apart p);
    idle = λ p f off out. q.idle p f out off;
  }

pub fibre_ne :
    (fibres : Ptr → Bool) (p q : Ptr) → fibres p ≡ true → fibres q ≡ false → (p == q) ≡ false
fibre_ne fibres p q h k = ground (arith, λ (e : p ≡ q). ap fibres e)

module _ {fibres : Ptr → Bool} {a b : Ptr} (w : Fibres fibres a b) {h : Heap} {xs ys : List Ptr}
    (q : Queued fibres a b h xs ys) where
  -- A fibre that is on neither list may be put onto the first.
  pub Queued-IsFree :
      (p : Ptr) → fibres p ≡ true → has p xs ≡ false → has p ys ≡ false → IsFree h a xs p
  Queued-IsFree p f out off = record {
    node_not_null = λ e. ground (arith, fibre_ne fibres p null f w.not_null);
    unlinked = q.idle p f out off;
    outside = ground (arith, fibre_ne fibres p a f w.not_first);
  }

  -- No fibre of the second list, nor that list itself, lies among the first list and its fibres.
  pub second_outside :
      (n : Ptr) (zs : List Ptr)
      → fibres n ≡ true
      → has n ys ≡ false
      → ((p : Ptr) → has p zs ≡ true → has p xs ≡ true)
      → (p : Ptr) → has p (b ∷ ys) ≡ true
      → has p (a ∷ n ∷ zs) ≡ false
  second_outside n zs f off inside p on = elim (Bool-cases (p == b)) [
    | inl here ↦
        let e : p ≡ b = ground arith in
        let not_fibre = ap fibres e ∙ w.not_second in
        ground (arith, w.differ, fibre_ne fibres n p f not_fibre, inside p, q.first_fibres p)
    | inr there ↦
        let on_second : has p ys ≡ true = ground arith in
        ground (
          arith,
          fibre_ne fibres p a (q.second_fibres p on_second) w.not_first,
          λ (e : p ≡ n). ap (λ z. has z ys) e,
          inside p,
          q.apart p,
        )
  ]

module _ {fibres : Ptr → Bool} {a b : Ptr} (w : Fibres fibres a b) {h g : Heap} {ys : List Ptr}
    (n : Ptr) (pre post : List Ptr) where
  -- A fibre on neither list goes onto the first.
  pub Queued-insert :
      Queued fibres a b h (pre ++ post) ys
      → fibres n ≡ true
      → has n ys ≡ false
      → IsList g a (pre ++ (n ∷ post)) × SameOutside a (n ∷ (pre ++ post)) h g
      → Queued fibres a b g (pre ++ (n ∷ post)) ys
  Queued-insert q f off (is, same) = record {
    first_list = is;
    second_list =
        IsList-frame same (λ e. w.differ (sym e))
          (second_outside w q n (pre ++ post) f off (λ p i. i)) q.second_list;
    first_fibres = λ p on.
        ground (arith, has-insert p n pre post, q.first_fibres p, λ (e : p ≡ n). ap fibres e);
    second_fibres = q.second_fibres;
    apart = λ p on.
        ground (arith, has-insert p n pre post, q.apart p, λ (e : p ≡ n). ap (λ z. has z ys) e);
    idle = λ p fp out off'.
        let outside : (p == a) ≡ false = fibre_ne fibres p a fp w.not_first in
        same.same_next p (ground (arith, has-insert p n pre post))
        ∙ q.idle p fp (ground (arith, has-insert p n pre post)) off';
  }

  -- One leaves the first list, and is on neither.
  pub Queued-remove :
      Queued fibres a b h (pre ++ (n ∷ post)) ys
      → IsList g a (pre ++ post)
        × IsFree g a (pre ++ post) n
        × SameOutside a (n ∷ (pre ++ post)) h g
      → Queued fibres a b g (pre ++ post) ys
  Queued-remove q (is, free, same) = record {
    first_list = is;
    second_list =
        IsList-frame same (λ e. w.differ (sym e))
          (second_outside w q n (pre ++ post) f (q.apart n here)
            (λ p i. ground (arith, has-insert p n pre post)))
          q.second_list;
    first_fibres = λ p on. q.first_fibres p (ground (arith, has-insert p n pre post));
    second_fibres = q.second_fibres;
    apart = λ p on. q.apart p (ground (arith, has-insert p n pre post));
    idle = λ p fp out off'. elim (Bool-cases (p == n)) [
      | inl same_fibre ↦ let e : p ≡ n = ground arith in ap g.next e ∙ free.unlinked
      | inr other ↦
          let outside : (p == a) ≡ false = fibre_ne fibres p a fp w.not_first in
          same.same_next p (ground arith)
          ∙ q.idle p fp (ground (arith, has-insert p n pre post)) off'
    ];
  }
    where
      here : has n (pre ++ (n ∷ post)) ≡ true
      here = ground (arith, has-insert n n pre post)

      f : fibres n ≡ true
      f = q.first_fibres n here

  -- What is gone is on neither list.
  pub gone :
      Queued fibres a b h (pre ++ (n ∷ post)) ys
      → IsFree g a (pre ++ post) n
      → (has n (pre ++ post) ≡ false) × (has n ys ≡ false)
  gone q free = (ground (arith, free.outside), q.apart n (ground (arith, has-insert n n pre post)))

-- ===== src/LinkedList/Splice.antt =====
-- Linking one node into a chain, and out of it.
use librfn.Common.{◌≡◌, ◌≢◌, ◌∙◌, true, false, List, ◌∷◌, ◌++◌, arith}
use librfn.LinkedList.Heap.{Ptr, null}
use librfn.LinkedList.Links.{
  has, Distinct, last, first, Links, has-append, has-last, Distinct-left, Distinct-remove, apart,
  Links-first, Links-split, Links-join, Links-restart, Links-retarget,
}

module _ (f g : Ptr → Ptr) (a n : Ptr) (pre post : List Ptr) where
  abbrev gap : Ptr
  gap = last a pre

  -- The words that change are that of `n` and the one that leads to it.
  abbrev Elsewhere : Type 0
  Elsewhere = (c : Ptr) → c ≢ gap → c ≢ n → g c ≡ f c

  -- A node of `post` is neither the gap nor `n`.
  after_gap :
      Distinct (a ∷ (pre ++ post))
      → has n (a ∷ (pre ++ post)) ≡ false
      → Elsewhere
      → (c : Ptr) → has c post ≡ true
      → g c ≡ f c
  after_gap d out same c i =
      same c (λ e. cc (apart (a ∷ pre) post d gap (has-last a pre), e, i))
        (λ e. ground (arith, has-append n pre post))

  pub splice_in :
      Distinct (a ∷ (pre ++ post))
      → has n (a ∷ (pre ++ post)) ≡ false
      → n ≢ null
      → g gap ≡ n
      → g n ≡ first post null
      → Elsewhere
      → Links f a (pre ++ post) null
      → Links g a (pre ++ (n ∷ post)) null
  splice_in d out ne at_gap at_n same l =
      let (l', m) = Links-split f a pre post null l in
      Links-join g a pre (n ∷ post) n null
        (Links-retarget f g a pre (first post null) n (Distinct-left (a ∷ pre) post d) at_gap
          (λ c i away. same c away (λ e. ground (arith, has-append n pre post))) l')
        (at_gap, ne, Links-restart f g gap n post null at_n (after_gap d out same) m)

  pub splice_out :
      Distinct (a ∷ (pre ++ (n ∷ post)))
      → g gap ≡ f n
      → Elsewhere
      → Links f a (pre ++ (n ∷ post)) null
      → Links g a (pre ++ post) null
  splice_out d at_gap same l =
      let (l', m) = Links-split f a pre (n ∷ post) null l in
      let (d', out) = Distinct-remove n (a ∷ pre) post d in
      let at_n : f n ≡ first post null = Links-first f n post null m.2 in
      Links-join g a pre post (first post null) null
        (Links-retarget f g a pre n (first post null) (Distinct-left (a ∷ pre) post d')
          (at_gap ∙ at_n) (λ c i away. same c away (λ e. ground (arith, has-append n pre post))) l')
        (Links-restart f g n gap post null (at_gap ∙ at_n) (after_gap d' out same) m.2)

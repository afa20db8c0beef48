-- ===== src/LinkedList/Links.antt =====
-- Chains of `next` words through distinct nodes, and what a write does to them.
use librfn.Common.{
  ◌≡◌, ◌≢◌, refl, ◌∙◌, Bool, true, false, ◌||◌, List, [], ◌∷◌, ◌++◌, arith, ◌==◌, Bool-cases, inl,
  inr,
}
use librfn.LinkedList.Heap.{Ptr, null}

abbrev pub has : Ptr → List Ptr → Bool
has b [] = false
has b (x ∷ xs) = (b == x) || has b xs

abbrev pub Distinct : List Ptr → Type 0
Distinct [] = Unit
Distinct (x ∷ xs) = (has x xs ≡ false) × Distinct xs

abbrev pub last : Ptr → List Ptr → Ptr
last a [] = a
last a (x ∷ xs) = last x xs

abbrev pub first : List Ptr → Ptr → Ptr
first [] e = e
first (x ∷ xs) e = x

-- From the word at `a` the words lead through the nodes `xs` to `e`.
abbrev pub Links : (Ptr → Ptr) → Ptr → List Ptr → Ptr → Type 0
Links f a [] e = f a ≡ e
Links f a (x ∷ xs) e = (f a ≡ x) × (x ≢ null) × Links f x xs e

pub has-append : (b : Ptr) (xs ys : List Ptr) → has b (xs ++ ys) ≡ (has b xs || has b ys)
has-append b [] ys = refl
has-append b (x ∷ xs) ys = ground (arith, has-append b xs ys)

pub has-insert :
    (b n : Ptr) (xs ys : List Ptr) → has b (xs ++ (n ∷ ys)) ≡ ((b == n) || has b (xs ++ ys))
has-insert b n [] ys = refl
has-insert b n (x ∷ xs) ys = ground (arith, has-insert b n xs ys)

pub has-last : (a : Ptr) (xs : List Ptr) → has (last a xs) (a ∷ xs) ≡ true
has-last a [] = ground arith
has-last a (x ∷ xs) = ground (arith, has-last x xs)

-- A node that is not among the nodes of a chain is not its last.
pub ne-last : (b a : Ptr) (xs : List Ptr) → has b (a ∷ xs) ≡ false → b ≢ last a xs
ne-last b a xs out e = ground (arith, has-last a xs)

pub Distinct-insert :
    (n : Ptr) (xs ys : List Ptr)
    → Distinct (xs ++ ys)
    → has n (xs ++ ys) ≡ false
    → Distinct (xs ++ (n ∷ ys))
Distinct-insert n [] ys d out = (out, d)
Distinct-insert n (x ∷ xs) ys d out =
    (ground (arith, has-insert x n xs ys), Distinct-insert n xs ys d.1 (ground arith))

pub Distinct-remove :
    (n : Ptr) (xs ys : List Ptr)
    → Distinct (xs ++ (n ∷ ys))
    → Distinct (xs ++ ys) × (has n (xs ++ ys) ≡ false)
Distinct-remove n [] ys d = (d.1, d.0)
Distinct-remove n (x ∷ xs) ys d =
    let (d', out) = Distinct-remove n xs ys d.1 in
    ((ground (arith, has-insert x n xs ys), d'), ground (arith, has-insert x n xs ys))

-- The nodes of the two parts of a chain are apart.
pub apart :
    (xs ys : List Ptr) → Distinct (xs ++ ys) → (b : Ptr) → has b xs ≡ true → has b ys ≡ false
apart [] ys d b i = cc
apart (x ∷ xs) ys d b i = elim (Bool-cases (b == x)) [
  | inl here ↦ ground (arith, has-append x xs ys)
  | inr there ↦ apart xs ys d.1 b (ground arith)
]

pub Distinct-left : (xs ys : List Ptr) → Distinct (xs ++ ys) → Distinct xs
Distinct-left [] ys d = tt
Distinct-left (x ∷ xs) ys d = (ground (arith, has-append x xs ys), Distinct-left xs ys d.1)

module _ (f : Ptr → Ptr) where
  pub Links-first : (a : Ptr) (xs : List Ptr) (e : Ptr) → Links f a xs e → f a ≡ first xs e
  Links-first a [] e l = l
  Links-first a (x ∷ xs) e l = l.0

  pub Links-last : (a : Ptr) (xs : List Ptr) (e : Ptr) → Links f a xs e → f (last a xs) ≡ e
  Links-last a [] e l = l
  Links-last a (x ∷ xs) e l = Links-last x xs e l.2

  pub Links-split :
      (a : Ptr) (xs ys : List Ptr) (e : Ptr)
      → Links f a (xs ++ ys) e
      → Links f a xs (first ys e) × Links f (last a xs) ys e
  Links-split a [] ys e l = (Links-first a ys e l, l)
  Links-split a (x ∷ xs) ys e l = let (l', m) = Links-split x xs ys e l.2 in ((l.0, l.1, l'), m)

  pub Links-join :
      (a : Ptr) (xs ys : List Ptr) (m e : Ptr)
      → Links f a xs m
      → Links f (last a xs) ys e
      → Links f a (xs ++ ys) e
  Links-join a [] ys m e l k = k
  Links-join a (x ∷ xs) ys m e l k = (l.0, l.1, Links-join x xs ys m e l.2 k)

module _ (f g : Ptr → Ptr) where
  -- A chain may be entered by another word, and keeps no track of words outside it.
  pub Links-restart :
      (a b : Ptr) (xs : List Ptr) (e : Ptr)
      → g b ≡ first xs e
      → ((c : Ptr) → has c xs ≡ true → g c ≡ f c)
      → Links f a xs e
      → Links g b xs e
  Links-restart a b [] e at same l = at
  Links-restart a b (x ∷ xs) e at same l = (
    at,
    l.1,
    Links-restart x x xs e (same x (ground arith) ∙ Links-first f x xs e l.2)
        (λ c i. same c (ground arith)) l.2,
  )

  -- A write of the last word leads the chain elsewhere.
  pub Links-retarget :
      (a : Ptr) (xs : List Ptr) (e m : Ptr)
      → Distinct (a ∷ xs)
      → g (last a xs) ≡ m
      → ((c : Ptr) → has c (a ∷ xs) ≡ true → c ≢ last a xs → g c ≡ f c)
      → Links f a xs e
      → Links g a xs m
  Links-retarget a [] e m d at same l = at
  Links-retarget a (x ∷ xs) e m d at same l = (
    same a (ground arith) (ne-last a x xs d.0) ∙ l.0,
    l.1,
    Links-retarget x xs e m d.1 at (λ c i ne. same c (ground arith) ne) l.2,
  )

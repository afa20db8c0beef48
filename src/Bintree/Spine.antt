-- ===== src/Bintree/Spine.antt =====
-- The right spine of a subtree: the search for its end, and the thread that is tied there and undone.
use mathlib.Core.Path.{fun_ext}
use librfn.Common.{
  ℕ, zero, suc, ◌≡◌, ◌≢◌, ◌<◌, refl, sym, ap, ◌∙◌, subst, true, false, ◌||◌, arith, ◌==◌, ne→==,
}
use librfn.Bintree.Memory.{Ptr, null, Nodes, ok, update}
use librfn.Bintree.Iterate.{predecessor}
use librfn.Bintree.Shape.{Tree, nil, node, size, in_tree, Distinct, Ends}

-- The last node on the right spine that begins with `b` and goes on with the subtree `r`.
abbrev pub rightmost : Ptr → Tree → Ptr
rightmost b nil = b
rightmost b (node l c r) = rightmost c r

abbrev pub tied : Nodes → Ptr → Ptr → Nodes
tied m p v = record m { right = update m.right p v }

pub rightmost_real :
    (m : Nodes) (b : Ptr) (r : Tree) (e : Ptr)
    → b ≢ null
    → Ends m (m.right b) r e
    → rightmost b r ≢ null
rightmost_real m b nil e real is = real
rightmost_real m b (node l c r) e real (at, real', left, right) = rightmost_real m c r e real' right

pub right-rightmost :
    (m : Nodes) (b : Ptr) (r : Tree) (e : Ptr)
    → Ends m (m.right b) r e
    → m.right (rightmost b r) ≡ e
right-rightmost m b nil e is = is
right-rightmost m b (node l c r) e (at, real, left, right) = right-rightmost m c r e right

pub in_tree-rightmost :
    (l : Tree) (b : Ptr) (r : Tree) → in_tree (rightmost b r) (node l b r) ≡ true
in_tree-rightmost l b nil = ground arith
in_tree-rightmost l b (node l' c r) = ground (arith, in_tree-rightmost l' c r)

-- The links to the right alone: from `b` they lead through the spine of `r` to `e`.
abbrev pub Spine : (Ptr → Ptr) → Ptr → Tree → Ptr → Type 0
Spine f b nil e = f b ≡ e
Spine f b (node l c r) e = (f b ≡ c) × (c ≢ null) × Spine f c r e

pub Ends-Spine :
    (m : Nodes) (b : Ptr) (r : Tree) (e : Ptr) → Ends m (m.right b) r e → Spine m.right b r e
Ends-Spine m b nil e is = is
Ends-Spine m b (node l c r) e (at, real, left, right) = (at, real, Ends-Spine m c r e right)

-- Whether the spine ends as it did or with a thread to `curr`, the search stops at its last node.
pub predecessor-rightmost :
    (fuel : ℕ) (m : Nodes) (curr b : Ptr) (r : Tree) (e : Ptr)
    → size r < fuel
    → in_tree curr r ≡ false
    → (e == null) || (e == curr) ≡ true
    → b ≢ null
    → Spine m.right b r e
    → predecessor fuel curr b m ≡ ok (rightmost b r) m
unfolding predecessor
predecessor-rightmost zero m curr b r e h out end real is = absurd (omega arith)
predecessor-rightmost (suc fuel) m curr b nil e h out end real is =
    rw (ne→== b null real, is) (ground (arith, end))
predecessor-rightmost (suc fuel) m curr b (node l c r) e h out end real (at, real', right) =
    let other : (c == curr) ≡ false = ground (arith, out) in
    rw (ne→== b null real, at, ne→== c null real', other)
      (predecessor-rightmost fuel m curr c r e (omega (arith, h)) (ground (arith, out)) end real'
        right)

-- A tree stays what it is while other nodes change.
pub Ends-frame :
    (m m' : Nodes) (p : Ptr) (t : Tree) (e : Ptr)
    → ((q : Ptr) → in_tree q t ≡ true → (m'.left q ≡ m.left q) × (m'.right q ≡ m.right q))
    → Ends m p t e
    → Ends m' p t e
Ends-frame m m' p nil e same is = is
Ends-frame m m' p (node l a r) e same (at, real, left, right) =
    let (sl, sr) = same a (ground arith) in
    (
      at,
      real,
      subst (λ z. Ends m' z l null) (sym sl)
          (Ends-frame m m' (m.left a) l null (λ q i. same q (ground arith)) left),
      subst (λ z. Ends m' z r e) (sym sr)
          (Ends-frame m m' (m.right a) r e (λ q i. same q (ground arith)) right),
    )

-- Tying the end of the spine to `v` changes where the tree ends, and nothing else of it.
pub Ends-tied :
    (m : Nodes) (p : Ptr) (l : Tree) (b : Ptr) (r : Tree) (e v : Ptr)
    → Distinct (node l b r)
    → Ends m p (node l b r) e
    → Ends (tied m (rightmost b r) v) p (node l b r) v
Ends-tied m p l b nil e v (bl, br, lr, dl, dr) (at, real, left, right) = (
  at,
  real,
  Ends-frame m (tied m b v) (m.left b) l null
      (λ q i. (refl, ground (arith, λ (h : q ≡ b). ap (λ z. in_tree z l) h))) left,
  ground arith,
)
Ends-tied m p l b (node l' c r) e v (bl, br, lr, dl, dr) (at, real, left, right) =
    let last = rightmost c r in
    let inside = in_tree-rightmost l' c r in
    let kept : update m.right last v b ≡ m.right b =
      ground (arith, br, inside, λ (h : b ≡ last). ap (λ z. in_tree z (node l' c r)) h) in
    (
      at,
      real,
      Ends-frame m (tied m last v) (m.left b) l null
          (λ q i. (
            refl,
            ground (arith, lr q i, inside, λ (h : q ≡ last). ap (λ z. in_tree z (node l' c r)) h),
          ))
          left,
      subst (λ z. Ends (tied m last v) z (node l' c r) v) (sym kept)
          (Ends-tied m (m.right b) l' c r e v dr right),
    )

-- A thread that is undone leaves no trace.
pub untied : (f : Ptr → Ptr) (p v : Ptr) → f p ≡ null → update (update f p v) p null ≡ f
untied f p v h = fun_ext (λ q. ground (arith, h, λ (e : q ≡ p). ap f e))

-- A spine that ends at null ends at `v` once it is tied to `v`.
pub Spine-tied :
    (f : Ptr → Ptr) (l : Tree) (b : Ptr) (r : Tree) (e v : Ptr)
    → Distinct (node l b r)
    → Spine f b r e
    → Spine (update f (rightmost b r) v) b r v
Spine-tied f l b nil e v d is = ground arith
Spine-tied f l b (node l' c r) e v (bl, br, lr, dl, dr) (at, real, right) =
    let last = rightmost c r in
    let inside = in_tree-rightmost l' c r in
    let kept : update f last v b ≡ f b =
      ground (arith, br, inside, λ (h : b ≡ last). ap (λ z. in_tree z (node l' c r)) h) in
    (kept ∙ at, real, Spine-tied f l' c r e v dr right)

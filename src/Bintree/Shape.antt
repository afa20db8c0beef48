-- ===== src/Bintree/Shape.antt =====
-- Trees as data, and what it is for the memory to hold one.
use librfn.Common.{
  ℕ, suc, ◌+◌, ◌≡◌, ◌≢◌, Bool, true, false, ◌||◌, List, [], ◌∷◌, ◌++◌, ◌==◌, if◌then◌else◌,
}
use librfn.Bintree.Memory.{Ptr, null, Nodes}

pub data Tree : Type 0 where
  nil : Tree
  node : Tree → Ptr → Tree → Tree

abbrev pub size : Tree → ℕ
size nil = 0
size (node l a r) = suc (size l + size r)

abbrev pub in_tree : Ptr → Tree → Bool
in_tree p nil = false
in_tree p (node l a r) = (p == a) || in_tree p l || in_tree p r

-- No node stands twice.
abbrev pub Distinct : Tree → Type 0
Distinct nil = Unit
Distinct (node l a r) =
    (in_tree a l ≡ false)
    × (in_tree a r ≡ false)
    × ((p : Ptr) → in_tree p l ≡ true → in_tree p r ≡ false)
    × Distinct l
    × Distinct r

-- The tree at `p`, whose outermost link to the right leads to `e`.
abbrev pub Ends : Nodes → Ptr → Tree → Ptr → Type 0
Ends m p nil e = p ≡ e
Ends m p (node l a r) e = (p ≡ a) × (a ≢ null) × Ends m (m.left a) l null × Ends m (m.right a) r e

-- A whole tree.
abbrev pub HasTree : Nodes → Ptr → Tree → Type 0
HasTree m p t = Ends m p t null

abbrev pub in_order : Tree → List Ptr
in_order nil = []
in_order (node l a r) = in_order l ++ (a ∷ in_order r)

abbrev pub pre_order : Tree → List Ptr
pre_order nil = []
pre_order (node l a r) = a ∷ (pre_order l ++ pre_order r)

abbrev pub post_order : Tree → List Ptr
post_order nil = []
post_order (node l a r) = post_order l ++ (post_order r ++ (a ∷ []))

-- The elements of a list whose inner nodes are those of which `is_list` holds.
abbrev pub elements : (Ptr → Bool) → Tree → List Ptr
elements is_list nil = []
elements is_list (node l a r) =
    if is_list a then elements is_list l ++ elements is_list r else a ∷ []

-- ===== src/Bintree/Memory.antt =====
-- include/librfn/bintree.h: the nodes of a binary tree in memory, and the commands over them.
use librfn.Common.{ℕ, Bool, ◌&&◌, ◌==◌, if◌then◌else◌}

abbrev pub Ptr : Type 0
Ptr = ℕ

abbrev pub null : Ptr
null = 0

-- The words `left` and `right` of the node at each address.
pub record Nodes : Type 0 where
  pub left : Ptr → Ptr
  pub right : Ptr → Ptr

abbrev pub update : (Ptr → Ptr) → Ptr → Ptr → Ptr → Ptr
update f p v q = if q == p then v else f q

-- A fault is an access through NULL.
pub data Run (A : Type 0) : Type 0 where
  fault : Run A
  out_of_fuel : Run A
  ok : A → Nodes → Run A

abbrev pub Cmd : Type 0 → Type 0
Cmd A = Nodes → Run A

abbrev pub pure : {A : Type 0} → A → Cmd A
pure a m = ok a m

module _ {A B : Type 0} where
  abbrev pub and_then : Run A → (A → Cmd B) → Run B
  and_then fault k = fault
  and_then out_of_fuel k = out_of_fuel
  and_then (ok a m) k = k a m

  infixl 5 ◌>>=◌ ◌>>◌
  abbrev pub ◌>>=◌ : Cmd A → (A → Cmd B) → Cmd B
  ◌>>=◌ c k m = and_then (c m) k

  abbrev pub ◌>>◌ : Cmd A → Cmd B → Cmd B
  ◌>>◌ c k m = and_then (c m) (λ _. k)

abbrev pub load_left : Ptr → Cmd Ptr
load_left p m = if p == null then fault else ok (m.left p) m

abbrev pub load_right : Ptr → Cmd Ptr
load_right p m = if p == null then fault else ok (m.right p) m

abbrev pub store_left : Ptr → Ptr → Cmd (Unit {0})
store_left p v m = if p == null then fault else ok tt (record m { left = update m.left p v })

abbrev pub store_right : Ptr → Ptr → Cmd (Unit {0})
store_right p v m = if p == null then fault else ok tt (record m { right = update m.right p v })

unfoldable pub bintree_is_leaf : Nodes → Ptr → Bool
bintree_is_leaf m tree = (m.left tree == null) && (m.right tree == null)

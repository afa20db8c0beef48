-- ===== src/LinkedList/Heap.antt =====
-- The memory that the list functions read and write, and the commands over it.
use librfn.Common.{ℕ, Bool, if◌then◌else◌, ◌==◌}

abbrev pub Ptr : Type 0
Ptr = ℕ

abbrev pub null : Ptr
null = 0

-- The two kinds of word. `next a` is the `next` of a node at `a`, and the `head` of a list at `a`:
-- both stand at the start of their struct, so `containerof` of either is the address itself.
-- `tail a` is the `tail` of a list at `a`.
pub record Heap : Type 0 where
  pub next : Ptr → Ptr
  pub tail : Ptr → Ptr

abbrev pub update : (Ptr → Ptr) → Ptr → Ptr → Ptr → Ptr
update f p v q = if q == p then v else f q

-- A fault is an access through NULL, or a failed assertion.
pub data Run (A : Type 0) : Type 0 where
  fault : Run A
  out_of_fuel : Run A
  ok : A → Heap → Run A

abbrev pub Cmd : Type 0 → Type 0
Cmd A = Heap → Run A

abbrev pub pure : {A : Type 0} → A → Cmd A
pure a h = ok a h

module _ {A B : Type 0} where
  abbrev pub and_then : Run A → (A → Cmd B) → Run B
  and_then fault k = fault
  and_then out_of_fuel k = out_of_fuel
  and_then (ok a h) k = k a h

  infixl 5 ◌>>=◌ ◌>>◌
  abbrev pub ◌>>=◌ : Cmd A → (A → Cmd B) → Cmd B
  ◌>>=◌ m k h = and_then (m h) k

  abbrev pub ◌>>◌ : Cmd A → Cmd B → Cmd B
  ◌>>◌ m k h = and_then (m h) (λ _. k)

abbrev pub assert : Bool → Cmd (Unit {0})
assert b h = if b then ok tt h else fault

abbrev pub load : Ptr → Cmd Ptr
load p h = if p == null then fault else ok (h.next p) h

abbrev pub store : Ptr → Ptr → Cmd (Unit {0})
store p v h = if p == null then fault else ok tt (record h { next = update h.next p v })

abbrev pub load_tail : Ptr → Cmd Ptr
load_tail p h = if p == null then fault else ok (h.tail p) h

abbrev pub store_tail : Ptr → Ptr → Cmd (Unit {0})
store_tail p v h = if p == null then fault else ok tt (record h { tail = update h.tail p v })

-- A run that returns, with a result and a memory of which `P` holds.
abbrev pub Returns : {A : Type 0} → (A → Heap → Type 0) → Run A → Type 0
Returns P (ok a h) = P a h
Returns P fault = ⊥
Returns P out_of_fuel = ⊥

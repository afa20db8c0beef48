-- ===== src/Ringbuf/Queue.antt =====
-- What a ring buffer promises: a first-in first-out queue of at most `cap` bytes.
use librfn.Common.{
  ℕ, Bool, true, false, Option, none, some, List, [], ◌∷◌, ◌++◌, ltb, if◌then◌else◌, length,
}

abbrev pub Queue : Type 0
Queue = List ℕ

unfoldable pub get : Queue → Option ℕ × Queue
get [] = (none, [])
get (x ∷ q) = (some x, q)

unfoldable pub put : ℕ → Queue → ℕ → Bool × Queue
put cap q d = if ltb (length q) cap then (true, q ++ (d ∷ [])) else (false, q)

-- A client's calls, and what it sees of each.
pub data Op : Type 0 where
  put_op : ℕ → Op
  get_op : Op
  empty_op : Op

pub data Reply : Type 0 where
  accepted : Bool → Reply
  byte : Option ℕ → Reply
  is_empty : Bool → Reply
  fault : Reply

abbrev pub none? : Queue → Bool
none? [] = true
none? (_ ∷ _) = false

unfoldable pub run : ℕ → Queue → List Op → List Reply
unfolding put get
run cap q [] = []
run cap q (put_op d ∷ ops) = let (b, q') = put cap q d in accepted b ∷ run cap q' ops
run cap q (get_op ∷ ops) = let (b, q') = get q in byte b ∷ run cap q' ops
run cap q (empty_op ∷ ops) = is_empty (none? q) ∷ run cap q ops

-- ===== src/Console/Order.antt =====
-- The table of commands as the sequence of the commands with names, and its order.
use librfn.Common.{
  ℕ, ◌≡◌, refl, Bool, true, false, none, some, List, [], ◌∷◌, arith, replicate, ◌==◌, if◌then◌else◌,
  Bool-cases, inl, inr,
}
use librfn.Enum.{same_string}
use librfn.Console.{Command}
use librfn.Console.Table.{Slots, string_above, find_from, find_command}

abbrev pub command : List ℕ → ℕ → Command
command name fn = record { name = some name; fn = fn }

-- The slots: the commands with names, the one without, and `free` slots that are NULL.
abbrev pub table_of : List (List ℕ × ℕ) → ℕ → ℕ → Slots
table_of [] unknown free = some (record { name = none; fn = unknown }) ∷ replicate free none
table_of ((name, fn) ∷ cs) unknown free = some (command name fn) ∷ table_of cs unknown free

-- The first command of the name, or the one without a name.
abbrev pub chosen : List (List ℕ × ℕ) → ℕ → List ℕ → Command
chosen [] unknown name = record { name = none; fn = unknown }
chosen ((n, fn) ∷ cs) unknown name =
    if same_string name n then command n fn else chosen cs unknown name

abbrev pub is_registered : List (List ℕ × ℕ) → List ℕ → Bool
is_registered [] name = false
is_registered ((n, fn) ∷ cs) name = if same_string name n then true else is_registered cs name

-- Behind the commands whose names are not above `name`.
abbrev pub registered : List (List ℕ × ℕ) → List ℕ → ℕ → List (List ℕ × ℕ)
registered [] name fn = (name, fn) ∷ []
registered ((n, f) ∷ cs) name fn =
    if string_above n name then (name, fn) ∷ (n, f) ∷ cs else (n, f) ∷ registered cs name fn

-- No name is above the next.
abbrev pub Sorted : List (List ℕ × ℕ) → Type 0
Sorted [] = Unit
Sorted ((n, f) ∷ []) = Unit
Sorted ((n, f) ∷ (n', f') ∷ cs) = (string_above n n' ≡ false) × Sorted ((n', f') ∷ cs)

pub find_command-chosen :
    (cs : List (List ℕ × ℕ)) (unknown free : ℕ) (name : List ℕ)
    → find_command (table_of cs unknown free) name ≡ some (chosen cs unknown name)
unfolding find_command find_from
find_command-chosen [] unknown free name = refl
find_command-chosen ((n, fn) ∷ cs) unknown free name = elim (Bool-cases (same_string name n)) [
  | inl same ↦ rw same refl
  | inr other ↦ rw other (find_command-chosen cs unknown free name)
]

-- Of two names at most one is above the other.
above_once : (s t : List ℕ) → string_above s t ≡ true → string_above t s ≡ false
above_once [] t h = absurd (ground (arith, h))
above_once (x ∷ s) [] h = refl
above_once (x ∷ s) (y ∷ t) h = elim (Bool-cases (x == y)) [
  | inl same ↦ ground (arith, h, same, above_once s t)
  | inr other ↦ ground (arith, h, other)
]

Sorted-behind :
    (n : List ℕ) (f : ℕ) (cs : List (List ℕ × ℕ)) (name : List ℕ) (fn : ℕ)
    → string_above n name ≡ false
    → Sorted ((n, f) ∷ cs)
    → Sorted (registered cs name fn)
    → Sorted ((n, f) ∷ registered cs name fn)
Sorted-behind n f [] name fn h sorted = λ s. (h, tt)
Sorted-behind n f ((n', f') ∷ cs) name fn h (first, sorted) =
    elim (Bool-cases (string_above n' name)) [
      | inl above ↦ rw above (λ s. (h, s))
      | inr below ↦ rw below (λ s. (first, s))
    ]

Sorted-tail : (c : List ℕ × ℕ) (cs : List (List ℕ × ℕ)) → Sorted (c ∷ cs) → Sorted cs
Sorted-tail (n, f) [] sorted = tt
Sorted-tail (n, f) ((n', f') ∷ cs) (first, sorted) = sorted

pub registered-Sorted :
    (cs : List (List ℕ × ℕ)) (name : List ℕ) (fn : ℕ) → Sorted cs → Sorted (registered cs name fn)
registered-Sorted [] name fn sorted = tt
registered-Sorted ((n, f) ∷ cs) name fn sorted = elim (Bool-cases (string_above n name)) [
  | inl above ↦ rw above (above_once n name above, sorted)
  | inr below ↦ rw below (
      Sorted-behind n f cs name fn below sorted
        (registered-Sorted cs name fn (Sorted-tail (n, f) cs sorted)))
]

-- Of the commands of other names, registering one changes nothing.
pub chosen-registered_other :
    (cs : List (List ℕ × ℕ)) (unknown : ℕ) (name : List ℕ) (fn : ℕ) (other : List ℕ)
    → same_string other name ≡ false
    → chosen (registered cs name fn) unknown other ≡ chosen cs unknown other
chosen-registered_other [] unknown name fn other h = rw h refl
chosen-registered_other ((n, f) ∷ cs) unknown name fn other h =
    let rest = chosen-registered_other cs unknown name fn other h in
    elim (Bool-cases (string_above n name)) [
      | inl above ↦ rw (above, h) refl
      | inr below ↦ rw (below, rest) refl
    ]

same_string_refl : (s : List ℕ) → same_string s s ≡ true
same_string_refl [] = refl
same_string_refl (x ∷ s) = ground (arith, same_string_refl s)

-- A name that was not in the table before is found.
pub chosen-registered_new :
    (cs : List (List ℕ × ℕ)) (unknown : ℕ) (name : List ℕ) (fn : ℕ)
    → is_registered cs name ≡ false
    → chosen (registered cs name fn) unknown name ≡ command name fn
chosen-registered_new [] unknown name fn h = rw (same_string_refl name) refl
chosen-registered_new ((n, f) ∷ cs) unknown name fn h = elim (Bool-cases (string_above n name)) [
  | inl above ↦ rw (above, same_string_refl name) refl
  | inr below ↦
      let other : same_string name n ≡ false = ground (arith, h) in
      rw (below, other) (chosen-registered_new cs unknown name fn (ground (arith, h, other)))
]

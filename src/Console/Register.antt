-- ===== src/Console/Register.antt =====
-- `console_register` puts a command at its place in the table.
use librfn.Common.{
  ℕ, zero, suc, ◌+◌, ◌-◌, ◌≡◌, refl, sym, ap, ◌∙◌, Bool, true, false, Option, none, some, List, [],
  ◌∷◌, ◌++◌, append_assoc, append-nil, arith, length, length-append, length-replicate, get_or, set,
  replicate, Bool-cases, inl, inr,
}
use librfn.Enum.{same_string}
use librfn.Console.{Command}
use librfn.Console.Table.{Slots, string_above, find_command, find_place, shift, console_register}
use librfn.Console.Order.{
  command, table_of, is_registered, registered, Sorted, find_command-chosen, registered-Sorted,
  chosen-registered_other, chosen-registered_new,
}

-- The elements of `xs`, the last of them first, before `ys`.
abbrev behind_reverse : Slots → Slots → Slots
behind_reverse [] ys = ys
behind_reverse (x ∷ xs) ys = behind_reverse xs (x ∷ ys)

behind_reverse-append :
    (xs ys zs : Slots) → behind_reverse xs (ys ++ zs) ≡ behind_reverse xs ys ++ zs
behind_reverse-append [] ys zs = refl
behind_reverse-append (x ∷ xs) ys zs = behind_reverse-append xs (x ∷ ys) zs

length-behind_reverse : (xs ys : Slots) → length (behind_reverse xs ys) ≡ length xs + length ys
length-behind_reverse [] ys = omega arith
length-behind_reverse (x ∷ xs) ys = omega (arith, length-behind_reverse xs (x ∷ ys))

get_or-at :
    (xs : Slots) (y : Option Command) (zs : Slots) (i : ℕ)
    → i ≡ length xs
    → get_or (xs ++ (y ∷ zs)) i none ≡ y
get_or-at [] y zs zero h = refl
get_or-at [] y zs (suc i) h = absurd (omega (arith, h))
get_or-at (x ∷ xs) y zs zero h = absurd (omega (arith, h))
get_or-at (x ∷ xs) y zs (suc i) h = get_or-at xs y zs i (omega (arith, h))

set-at :
    (xs : Slots) (y v : Option Command) (zs : Slots) (i : ℕ)
    → i ≡ length xs
    → set (xs ++ (y ∷ zs)) i v ≡ xs ++ (v ∷ zs)
set-at [] y v zs zero h = refl
set-at [] y v zs (suc i) h = absurd (omega (arith, h))
set-at (x ∷ xs) y v zs zero h = absurd (omega (arith, h))
set-at (x ∷ xs) y v zs (suc i) h = ap (λ l. x ∷ l) (set-at xs y v zs i (omega (arith, h)))

set-at_next :
    (xs : Slots) (y z v : Option Command) (zs : Slots) (i : ℕ)
    → i ≡ suc (length xs)
    → set (xs ++ (y ∷ z ∷ zs)) i v ≡ xs ++ (y ∷ v ∷ zs)
set-at_next [] y z v zs (suc zero) h = refl
set-at_next [] y z v zs zero h = absurd (omega (arith, h))
set-at_next [] y z v zs (suc (suc i)) h = absurd (omega (arith, h))
set-at_next (x ∷ xs) y z v zs zero h = absurd (omega (arith, h))
set-at_next (x ∷ xs) y z v zs (suc i) h =
    ap (λ l. x ∷ l) (set-at_next xs y z v zs i (omega (arith, h)))

-- The slot behind those moved is overwritten, and the new one is put where there is room then.
set-shift :
    (s xs zs : Slots) (z v : Option Command) (i j : ℕ)
    → i ≡ length xs
    → j ≡ i + length s
    → set (shift (length s) j (xs ++ behind_reverse s (z ∷ zs))) i v
      ≡ xs ++ (v ∷ behind_reverse s zs)
unfolding shift
set-shift [] xs zs z v i j h h' = set-at xs z v zs i h
set-shift (y ∷ s) xs zs z v i j h h' =
    let before = xs ++ behind_reverse s [] in
    let long : length before ≡ i + length s =
      length-append xs (behind_reverse s []) ∙ omega (arith, h, length-behind_reverse s []) in
    let split : (rest : Slots) → xs ++ behind_reverse s rest ≡ before ++ rest = λ rest.
      ap (λ l. xs ++ l) (behind_reverse-append s [] rest)
      ∙ sym (append_assoc xs (behind_reverse s []) rest) in
    let last : get_or (xs ++ behind_reverse s (y ∷ z ∷ zs)) (j - 1) none ≡ y =
      ap (λ l. get_or l (j - 1) none) (split (y ∷ z ∷ zs))
      ∙ get_or-at before y (z ∷ zs) (j - 1) (omega (arith, h', long)) in
    let moved : set (xs ++ behind_reverse s (y ∷ z ∷ zs)) j y
        ≡ xs ++ behind_reverse s (y ∷ y ∷ zs) =
      ap (λ l. set l j y) (split (y ∷ z ∷ zs))
      ∙ set-at_next before y z y zs j (omega (arith, h', long))
      ∙ sym (split (y ∷ y ∷ zs)) in
    let table = xs ++ behind_reverse s (y ∷ z ∷ zs) in
    ap (λ l. set (shift (length s) (j - 1) l) i v) (ap (λ x. set table j x) last ∙ moved)
    ∙ set-shift s xs (y ∷ zs) y v i (j - 1) h (omega (arith, h'))

behind_reverse_twice :
    (ys xs zs : Slots) → behind_reverse (behind_reverse ys xs) zs ≡ behind_reverse xs (ys ++ zs)
behind_reverse_twice [] xs zs = refl
behind_reverse_twice (y ∷ ys) xs zs = behind_reverse_twice ys (y ∷ xs) zs

set-shift_last :
    (xs ys : Slots) (v : Option Command) (i j : ℕ)
    → i ≡ length xs
    → j ≡ i + length ys
    → set (shift (length ys) j (xs ++ (ys ++ (none ∷ [])))) i v ≡ xs ++ (v ∷ ys)
set-shift_last xs ys v i j h h' =
    let s = behind_reverse ys [] in
    let long : length s ≡ length ys = length-behind_reverse ys [] ∙ omega arith in
    ap (λ n. set (shift n j (xs ++ (ys ++ (none ∷ [])))) i v) (sym long)
    ∙ ap (λ l. set (shift (length s) j (xs ++ l)) i v)
        (sym (behind_reverse_twice ys [] (none ∷ [])))
    ∙ set-shift s xs [] none v i j h (omega (arith, h', long))
    ∙ ap (λ l. xs ++ (v ∷ l)) (behind_reverse_twice ys [] [] ∙ append-nil ys)

abbrev nulls : ℕ → Slots
nulls k = replicate k none

nulls_more : (k : ℕ) → nulls (suc k) ≡ nulls k ++ (none ∷ [])
nulls_more zero = refl
nulls_more (suc k) = ap (λ l. none ∷ l) (nulls_more k)

table_of_more :
    (cs : List (List ℕ × ℕ)) (u k : ℕ) → table_of cs u (suc k) ≡ table_of cs u k ++ (none ∷ [])
table_of_more [] u k = ap (λ l. some (record { name = none; fn = u }) ∷ l) (nulls_more k)
table_of_more ((n, f) ∷ cs) u k = ap (λ l. some (command n f) ∷ l) (table_of_more cs u k)

-- The table before and after, from the place on.
Parted : List (List ℕ × ℕ) → ℕ → ℕ → List ℕ → ℕ → Type 0
Parted cs u k name fn =
    (xs : Slots) × (ys : Slots) × (find_place name (table_of cs u (suc k)) ≡ some (length xs))
    × (table_of cs u (suc k) ≡ xs ++ (ys ++ (none ∷ [])))
    × (table_of (registered cs name fn) u k ≡ xs ++ (some (command name fn) ∷ ys))

parted : (cs : List (List ℕ × ℕ)) (u k : ℕ) (name : List ℕ) (fn : ℕ) → Parted cs u k name fn
unfolding find_place Parted
parted [] u k name fn = ([], table_of [] u k, refl, table_of_more [] u k, refl)
parted ((n, f) ∷ cs) u k name fn =
    let (xs, ys, place, before, after) = parted cs u k name fn in
    elim (Bool-cases (string_above n name)) [
      | inl above ↦
          rw above ([], table_of ((n, f) ∷ cs) u k, refl, table_of_more ((n, f) ∷ cs) u k, refl)
      | inr below ↦
          let cons : Slots → Slots = λ l. some (command n f) ∷ l in
          rw (below, place) (cons xs, ys, refl, ap cons before, ap cons after)
    ]

length-table_of : (cs : List (List ℕ × ℕ)) (u k : ℕ) → length (table_of cs u k) ≡ length cs + suc k
length-table_of [] u k = ap suc (length-replicate k none) ∙ omega arith
length-table_of ((n, f) ∷ cs) u k = omega (arith, length-table_of cs u k)

register_with_room :
    (table : Slots) (name : List ℕ) (fn i : ℕ)
    → get_or table 31 none ≡ none
    → find_place name table ≡ some i
    → console_register table name fn
      ≡ some (true, set (shift (31 - i) 31 table) i (some (command name fn)))
unfolding console_register
register_with_room table name fn i free place = rw (free, place) refl

register_free :
    (cs : List (List ℕ × ℕ)) (unknown free : ℕ) (name : List ℕ) (fn : ℕ)
    → length cs + suc (suc free) ≡ 32
    → console_register (table_of cs unknown (suc free)) name fn
      ≡ some (true, table_of (registered cs name fn) unknown free)
unfolding console_register Parted
register_free cs unknown free name fn h =
    let table = table_of cs unknown (suc free) in
    let (xs, ys, place, before, after) = parted cs unknown free name fn in
    let long : length table ≡ 32 = length-table_of cs unknown (suc free) ∙ h in
    let sum : length xs + (length ys + 1) ≡ 32 =
      sym (
        length-append xs (ys ++ (none ∷ []))
        ∙ ap (λ n. length xs + n) (length-append ys (none ∷ [])))
      ∙ ap length (sym before)
      ∙ long in
    let slot : get_or table 31 none ≡ none =
      ap (λ l. get_or l 31 none) (before ∙ sym (append_assoc xs ys (none ∷ [])))
      ∙ get_or-at (xs ++ ys) none [] 31 (omega (arith, sum, length-append xs ys)) in
    let count : 31 - length xs ≡ length ys = omega (arith, sum) in
    register_with_room table name fn (length xs) slot place
    ∙ ap (λ l. some (true, l))
        (ap (λ n. set (shift n 31 table) (length xs) (some (command name fn))) count
          ∙ ap (λ l. set (shift (length ys) 31 l) (length xs) (some (command name fn))) before
          ∙ set-shift_last xs ys (some (command name fn)) (length xs) 31 refl (omega (arith, sum))
          ∙ sym after)

register_full :
    (cs : List (List ℕ × ℕ)) (unknown : ℕ) (name : List ℕ) (fn : ℕ)
    → length cs + 1 ≡ 32
    → console_register (table_of cs unknown 0) name fn ≡ some (false, table_of cs unknown 0)
unfolding console_register
register_full cs unknown name fn h = rw (last_slot cs 31 (omega (arith, h))) refl
  where
    last_slot :
        (cs : List (List ℕ × ℕ)) (i : ℕ)
        → i ≡ length cs
        → get_or (table_of cs unknown 0) i none ≡ some (record { name = none; fn = unknown })
    last_slot [] zero h = refl
    last_slot [] (suc i) h = absurd (omega (arith, h))
    last_slot ((n, f) ∷ cs) zero h = absurd (omega (arith, h))
    last_slot ((n, f) ∷ cs) (suc i) h = last_slot cs i (omega (arith, h))

-- What a call gives by the number of free slots.
abbrev pub outcome : List (List ℕ × ℕ) → ℕ → ℕ → List ℕ → ℕ → Bool × Slots
outcome cs unknown zero name fn = (false, table_of cs unknown 0)
outcome cs unknown (suc free) name fn = (true, table_of (registered cs name fn) unknown free)

-- In a table of 32 slots, `console_register` returns -1 and changes nothing when all are taken. When some
-- are free, it puts the command behind those whose names are not above its own and before the others,
-- moves those up by one slot, and loses none; a table in the order of the names stays in order.
pub console_register_lem :
    (cs : List (List ℕ × ℕ)) (unknown free : ℕ) (name : List ℕ) (fn : ℕ)
    → length cs + suc free ≡ 32
    → Sorted cs
    → (console_register (table_of cs unknown free) name fn ≡ some (outcome cs unknown free name fn))
      × Sorted (registered cs name fn)
console_register_lem cs unknown zero name fn h sorted =
    (register_full cs unknown name fn (omega (arith, h)), registered-Sorted cs name fn sorted)
console_register_lem cs unknown (suc free) name fn h sorted =
    (register_free cs unknown free name fn h, registered-Sorted cs name fn sorted)

-- A command that is registered while a slot is free, and whose name is new, is the one that
-- `find_command` finds by its name from then on; by any other name it finds what it found before.
pub find_command-console_register :
    (cs : List (List ℕ × ℕ)) (unknown free : ℕ) (name : List ℕ) (fn : ℕ)
    → length cs + suc (suc free) ≡ 32
    → is_registered cs name ≡ false
    → (table : Slots) × (console_register (table_of cs unknown (suc free)) name fn
        ≡ some (true, table))
      × (find_command table name ≡ some (command name fn))
      × ((other : List ℕ)
          → same_string other name ≡ false
          → find_command table other ≡ find_command (table_of cs unknown (suc free)) other)
find_command-console_register cs unknown free name fn h new = (
  table_of (registered cs name fn) unknown free,
  register_free cs unknown free name fn h,
  find_command-chosen (registered cs name fn) unknown free name
      ∙ ap (λ c. some c) (chosen-registered_new cs unknown name fn new),
  λ other differs.
      find_command-chosen (registered cs name fn) unknown free other
      ∙ ap (λ c. some c) (chosen-registered_other cs unknown name fn other differs)
      ∙ sym (find_command-chosen cs unknown (suc free) other),
)

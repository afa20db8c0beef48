-- ===== src/Console/Table.antt =====
-- librfn/console.c: the table of commands, which keeps the order of their names, and the search in it.
use librfn.Common.{
  ℕ, zero, suc, ◌-◌, Bool, true, false, Option, none, some, List, [], ◌∷◌, ltb, get_or, set, ◌==◌,
  if◌then◌else◌,
}
use mathlib.Core.Option
use librfn.Enum.{same_string}
use librfn.Console.{Command}

-- `strcmp(s, t) > 0`
abbrev pub string_above : List ℕ → List ℕ → Bool
string_above [] t = false
string_above (x ∷ s) [] = true
string_above (x ∷ s) (y ∷ t) = if x == y then string_above s t else ltb y x

-- A slot of `cmd_table`; `none` is NULL.
abbrev pub Slots : Type 0
Slots = List (Option Command)

abbrev pub lengthof_table : ℕ
lengthof_table = 32

-- A search goes on up to the first command without a name. `none` is an access through NULL or behind
-- the table.
unfoldable pub find_from : List ℕ → Slots → Option Command
find_from name [] = none
find_from name (none ∷ slots) = none
find_from name (some cmd ∷ slots) =
    let rest = find_from name slots in
    elim cmd.name [ none ↦ some cmd | some n ↦ if same_string name n then some cmd else rest ]

unfoldable pub find_command : Slots → List ℕ → Option Command
unfolding find_from
find_command table name = find_from name table

-- The place of the first command behind `name`, or of the one without a name.
unfoldable pub find_place : List ℕ → Slots → Option ℕ
find_place name [] = some 0
find_place name (none ∷ slots) = none
find_place name (some cmd ∷ slots) =
    let rest = Option.map suc (find_place name slots) in
    elim cmd.name [ none ↦ some 0 | some n ↦ if string_above n name then some 0 else rest ]

-- The `count` slots up to `j`, from the last of them on, take what stands before each.
unfoldable pub shift : ℕ → ℕ → Slots → Slots
shift zero j table = table
shift (suc count) j table = shift count (j - 1) (set table j (get_or table (j - 1) none))

-- Whether a slot is not NULL.
abbrev pub is_full : Option Command → Bool
is_full none = false
is_full (some cmd) = true

-- The command that is registered has a name. `-1` is `false`; `none` is an access through NULL.
unfoldable pub console_register : Slots → List ℕ → ℕ → Option (Bool × Slots)
unfolding find_place shift
console_register table name fn =
    let place = find_place name table in
    let opened : ℕ → Slots = λ i.
      set (shift (lengthof_table - 1 - i) (lengthof_table - 1) table) i
        (some (record { name = some name; fn = fn })) in
    if is_full (get_or table (lengthof_table - 1) none)
    then some (false, table)
    else Option.map (λ i. (true, opened i)) place

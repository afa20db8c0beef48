-- ===== src/Console/Commands.antt =====
-- librfn/console.c: the three commands that every console has.
use librfn.Common.{
  ℕ, zero, suc, ◌+◌, ◌-◌, Bool, true, false, ◌||◌, Option, none, some, List, [], ◌∷◌, ◌++◌, get_or,
  replicate, ◌==◌, if◌then◌else◌,
}
use librfn.Fibre.{state_yielded, state_waiting, state_exited}
use librfn.Console.{Console, fprintf, string_at}
use librfn.Console.Table.{Slots}

-- The loop over the arguments from `i` on.
unfoldable pub echo_from : ℕ → ℕ → Console → Console
echo_from zero i c = c
echo_from (suc count) i c =
    echo_from count (i + 1) (fprintf c (b' ' ∷ string_at c.scratch (get_or c.argv i 0)))

unfoldable pub console_echo : Console → ℕ × Console
unfolding echo_from
console_echo c = (state_exited, fprintf (echo_from (c.argc - 1) 1 c) (b'\n' ∷ []))

abbrev pub unknown_command : List ℕ
unknown_command =
    b'U' ∷ b'n' ∷ b'k' ∷ b'n' ∷ b'o' ∷ b'w' ∷ b'n' ∷ b'/' ∷ b'b' ∷ b'a' ∷ b'd' ∷ b' ' ∷ b'c' ∷ b'o'
    ∷ b'm' ∷ b'm' ∷ b'a' ∷ b'n' ∷ b'd' ∷ b'\n' ∷ []

unfoldable pub console_unknown : Console → ℕ × Console
console_unknown c =
    if get_or c.scratch (get_or c.argv 0 0) 0 == 0
    then (state_exited, c)
    else (state_exited, fprintf c unknown_command)

abbrev pub available_commands : List ℕ
available_commands =
    b'A' ∷ b'v' ∷ b'a' ∷ b'i' ∷ b'l' ∷ b'a' ∷ b'b' ∷ b'l' ∷ b'e' ∷ b' ' ∷ b'c' ∷ b'o' ∷ b'm' ∷ b'm'
    ∷ b'a' ∷ b'n' ∷ b'd' ∷ b's' ∷ b':' ∷ b'\n' ∷ []

-- The static variables of `console_help`; `cmd` is an index into the table.
pub record Help : Type 0 where
  pub locked : Bool
  pub cmd : ℕ

-- The test of the loop and its body up to `PT_YIELD`. `none` is an access through NULL.
unfoldable pub help_loop : Slots → Help → Console → Option (ℕ × Help × Console)
help_loop table h c = elim (get_or table h.cmd none) [
  | none ↦ none
  | some cmd ↦ elim cmd.name [
    | none ↦ some (state_exited, record h { locked = false }, c)
    | some name ↦
        some
          (state_yielded, h, fprintf (record c { pt = 3 }) (b' ' ∷ b' ' ∷ (name ++ (b'\n' ∷ []))))
  ]
]

unfoldable pub help_wait : Slots → Help → Console → Option (ℕ × Help × Console)
unfolding help_loop
help_wait table h c =
    if h.locked
    then some (state_waiting, h, record c { pt = 2 })
    else help_loop table (record { locked = true; cmd = 0 }) c

-- `c->pt` is 1 and 3 behind the two `PT_YIELD` and 2 at `PT_WAIT_UNTIL`; no other value is met.
unfoldable pub console_help : Slots → Help → Console → Option (ℕ × Help × Console)
unfolding help_loop help_wait
console_help table h c =
    if c.pt == 0
    then some (state_yielded, h, fprintf (record c { pt = 1 }) available_commands)
    else if (c.pt == 1) || (c.pt == 2)
    then help_wait table h c
    else if c.pt == 3
    then help_loop table (record h { cmd = h.cmd + 1 }) c
    else none

-- The table at the start; the functions of its commands are numbered from 0.
unfoldable pub cmd_table : Slots
cmd_table =
    some (record { name = some (b'e' ∷ b'c' ∷ b'h' ∷ b'o' ∷ []); fn = 0 })
    ∷ some (record { name = some (b'h' ∷ b'e' ∷ b'l' ∷ b'p' ∷ []); fn = 1 })
    ∷ some (record { name = none; fn = 2 })
    ∷ replicate 29 none

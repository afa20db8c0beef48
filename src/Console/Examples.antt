-- ===== src/Console/Examples.antt =====
-- A console and a table of commands, and the theorems on them.
use librfn.Common.{
  ℕ, ◌≡◌, refl, arith, true, false, none, some, List, [], ◌∷◌, ◌++◌, get_or, replicate,
}
use librfn.Enum.{same_string}
use librfn.Console.{at_getch, Console, string_at}
use librfn.Console.Table.{Slots, console_register, find_command}
use librfn.Console.Tokens.{do_tokenize}
use librfn.Console.Words.{Word, strings}
use librfn.Console.Arguments.{do_tokenize_lem}
use librfn.Console.Run.{do_prompt, console_init, console_process, Run, done, out_of_fuel, fault}
use librfn.Console.Order.{command, table_of, registered, Sorted}
use librfn.Console.Register.{outcome, console_register_lem, find_command-console_register}
use librfn.Ringbuf.Stores.{Stores, init-Stores}
use librfn.Console.Processing.{console_process_lem}
use librfn.Console.Editing.{Shows, do_prompt-Shows}

-- `echo` and `help`
abbrev two_commands : List (List ℕ × ℕ)
two_commands = (b'e' ∷ b'c' ∷ b'h' ∷ b'o' ∷ [], 1) ∷ (b'h' ∷ b'e' ∷ b'l' ∷ b'p' ∷ [], 2) ∷ []

abbrev exit : List ℕ
exit = b'e' ∷ b'x' ∷ b'i' ∷ b't' ∷ []

abbrev fresh : Console
fresh = console_init (λ c. c) (record { name = none; fn = 0 })

-- Commands whose output is the name that they were called by.
abbrev telling : ℕ → Console → ℕ × Console
telling fn c = (2, record c { out = string_at c.scratch (get_or c.argv 0 0) })

-- The line `ls "a b" c`.
abbrev a_line : Console
a_line = record fresh {
  scratch =
      (b'l' ∷ b's' ∷ b' ' ∷ b'"' ∷ b'a' ∷ b' ' ∷ b'b' ∷ b'"' ∷ b' ' ∷ b'c' ∷ []) ++ replicate 150 0;
}

tokens_test :
    ((do_tokenize a_line).argc ≡ 3)
    × ((do_tokenize a_line).argv ≡ 0 ∷ 4 ∷ 9 ∷ 10 ∷ [])
    × (string_at (do_tokenize a_line).scratch 4 ≡ b'a' ∷ b' ' ∷ b'b' ∷ [])
unfolding do_tokenize
tokens_test = (refl, refl, refl)

-- The line `ls a  bc`
abbrev two_words : List Word
two_words = (0, b'a', []) ∷ (1, b'b', b'c' ∷ []) ∷ []

abbrev words_line : Console
words_line = record fresh {
  scratch = (b'l' ∷ b's' ∷ b' ' ∷ b'a' ∷ b' ' ∷ b' ' ∷ b'b' ∷ b'c' ∷ []) ++ replicate 152 0;
}

do_tokenize_lem_example :
    ((do_tokenize words_line).argc ≡ 3)
    × (strings (do_tokenize words_line).scratch (do_tokenize words_line).argv
        ≡ (b'l' ∷ b's' ∷ []) ∷ (b'a' ∷ []) ∷ (b'b' ∷ b'c' ∷ []) ∷ [] ∷ [])
do_tokenize_lem_example =
    do_tokenize_lem words_line b'l' (b's' ∷ []) two_words (replicate 151 0) (refl, refl, refl)
      ((refl, refl, refl), tt)
      ((refl, refl, refl), tt, ((refl, refl, refl), ((refl, refl, refl), tt), tt)) (omega arith)
      refl

-- The line `l a b "c"`: the closing quote stays at the end of the fourth argument.
abbrev quoted_line : Console
quoted_line = record fresh {
  scratch = (b'l' ∷ b' ' ∷ b'a' ∷ b' ' ∷ b'b' ∷ b' ' ∷ b'"' ∷ b'c' ∷ b'"' ∷ []) ++ replicate 151 0;
}

fourth_test :
    strings (do_tokenize quoted_line).scratch (do_tokenize quoted_line).argv
    ≡ (b'l' ∷ []) ∷ (b'a' ∷ []) ∷ (b'b' ∷ []) ∷ (b'c' ∷ b'"' ∷ []) ∷ []
unfolding do_tokenize
fourth_test = refl

console_register_lem_example :
    (console_register (table_of two_commands 0 29) exit 3 ≡ some (outcome two_commands 0 29 exit 3))
    × Sorted (registered two_commands exit 3)
console_register_lem_example = console_register_lem two_commands 0 29 exit 3 refl (refl, tt)

find_command-console_register_example :
    (table : Slots) × (console_register (table_of two_commands 0 29) exit 3 ≡ some (true, table))
    × (find_command table exit ≡ some (command exit 3))
    × ((other : List ℕ)
        → same_string other exit ≡ false
        → find_command table other ≡ find_command (table_of two_commands 0 29) other)
find_command-console_register_example =
    find_command-console_register two_commands 0 28 exit 3 refl refl

-- The console once it has shown its prompt.
abbrev waiting : Console
waiting = record (do_prompt fresh) { priv = at_getch }

console_process_lem_example :
    (c' : Console) × (console_process telling (table_of two_commands 0 29) 3 2 waiting b'x'
      ≡ done 1 c')
    × (c'.priv ≡ at_getch)
    × Stores c'.ring []
    × Shows c' (b'x' ∷ []) 1
unfolding console_init do_prompt
console_process_lem_example =
    console_process_lem telling (table_of two_commands 0 29) waiting [] 0 b'x' 1 1 refl
      (init-Stores (replicate 16 0) 16 (omega arith) (omega arith) (omega arith)) (omega arith)
      (do_prompt-Shows fresh) (omega arith) (omega arith) (omega arith) (omega arith)

-- The console once the characters have been put in, one after another.
abbrev fed : List ℕ → Run → Run
fed [] r = r
fed (ch ∷ chs) r = elim r [
  | done s c ↦ fed chs (console_process telling (table_of two_commands 0 29) 3 2 c ch)
  | out_of_fuel ↦ out_of_fuel
  | fault ↦ fault
]

abbrev output : Run → List ℕ
output (done s c) = c.out
output _ = []

-- A backspace at the end of a line takes nothing off it.
backspace_test :
    output (fed (b'a' ∷ b'b' ∷ 8 ∷ b'\n' ∷ []) (done 0 fresh)) ≡ b'a' ∷ b'b' ∷ b'>' ∷ b' ' ∷ []
unfolding console_process console_init librfn.Ringbuf.next_index
backspace_test = refl

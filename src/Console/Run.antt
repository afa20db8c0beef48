-- ===== src/Console/Run.antt =====
-- librfn/console.c: the line editor and the calls of the commands. A command's function is the client's and is a
-- parameter; so is the table at that time.
use librfn.Common.{
  ℕ, zero, suc, ◌+◌, ◌-◌, ◌||◌, none, some, List, [], ◌∷◌, leb, ltb, get_or, set, replicate, ◌==◌,
  if◌then◌else◌,
}
use librfn.Common.Word.{u8}
use librfn.Ringbuf.{Get, assert_failed, returned}
use librfn.Ringbuf as Ring
use librfn.Fibre.{state_yielded, state_waiting, state_exited, state_failed}
use librfn.Console.{Command, Console, at_begin, at_getch, at_spawn, fprintf, string_at}
use librfn.Console.Table.{Slots, find_command}
use librfn.Console.Tokens.{do_tokenize}

-- With pointers of 64 bits; the characters are its first 80 bytes.
abbrev pub sizeof_scratch : ℕ
sizeof_scratch = 160

unfoldable pub do_prompt : Console → Console
do_prompt c = fprintf (record c { scratch = replicate sizeof_scratch 0; bufp = 0 }) c.prompt

-- The run of the fibre is left out. What `console_hwinit` does is the platform's. `cmd` is NULL, which nothing reads before it is set.
unfoldable pub console_init : (Console → Console) → Command → Console
unfolding Ring.init
console_init console_hwinit no_command = console_hwinit (record {
  priv = at_begin;
  prompt = b'>' ∷ b' ' ∷ [];
  out = [];
  ring = Ring.init (replicate 16 0) 16;
  scratch = replicate sizeof_scratch 0;
  bufp = 0;
  argc = 0;
  argv = replicate 4 0;
  cmd = no_command;
  pt = 0;
})

unfoldable pub console_silent : Console → Console
console_silent c = record c { argc = 1 }

-- The request to run the fibre is left out.
unfoldable pub console_putchar : Console → ℕ → Console
unfolding Ring.put
console_putchar c d = record c { ring = (Ring.put c.ring (u8 d)).1 }

unfoldable pub console_getch : Console → Get
unfolding Ring.get
console_getch c = Ring.get c.ring

-- What `console_run` does from here: it returns, or it waits for a character. A search in the table that
-- goes wrong is a fault.
pub data Step : Type 0 where
  faulty : Step
  returns : ℕ → Console → Step
  waits : Console → Step

abbrev pub command_failed : List ℕ
command_failed =
    b'C' ∷ b'o' ∷ b'm' ∷ b'm' ∷ b'a' ∷ b'n' ∷ b'd' ∷ b' ' ∷ b'f' ∷ b'a' ∷ b'i' ∷ b'l' ∷ b'e' ∷ b'd'
    ∷ b'\n' ∷ []

-- A call: the state returned and the console, unless the fuel ran out, which bounds the loop.
pub data Run : Type 0 where
  out_of_fuel fault : Run
  done : ℕ → Console → Run

module _ (fn : ℕ → Console → ℕ × Console) where
  -- From the `case` of `PT_SPAWN` on.
  unfoldable pub run_child : Console → Step
  unfolding do_prompt
  run_child c =
      let (res, c') = fn c.cmd.fn c in
      let ended = if res == state_failed then fprintf c' command_failed else c' in
      if ltb res state_exited then returns res c' else waits (do_prompt ended)

  -- `PT_INIT` sets the state of the command's function to zero.
  unfoldable pub run_line : Slots → Console → Step
  unfolding do_tokenize find_command run_child
  run_line table c =
      let c' = do_tokenize c in
      elim (find_command table (string_at c'.scratch (get_or c'.argv 0 0))) [
        | none ↦ faulty
        | some cmd ↦ run_child (record c' { cmd = cmd; pt = 0; priv = at_spawn })
      ]

  -- The body of the loop once there is a character.
  unfoldable pub handle_char : Slots → ℕ → Console → Step
  unfolding run_line do_prompt
  handle_char table ch c =
      if (ch == b'\n') || leb 79 c.bufp
      then run_line table c
      else if ch == 8
      then waits (
          if ltb 0 c.bufp
          then fprintf (record c { bufp = c.bufp - 1 }) (b' ' ∷ 8 ∷ [])
          else fprintf c (b' ' ∷ []))
      else if ch == 3
      then waits (do_prompt (fprintf c (b'\n' ∷ [])))
      else waits (record c { scratch = set c.scratch c.bufp ch; bufp = c.bufp + 1 })

  -- The loop, from where it waits for a character.
  unfoldable pub read_loop : Slots → ℕ → Console → Run
  unfolding console_getch handle_char
  read_loop table zero c = out_of_fuel
  read_loop table (suc fuel) c = elim (console_getch c) [
    | assert_failed ↦ fault
    | returned none ring ↦ done state_waiting (record c { ring = ring; priv = at_getch })
    | returned (some ch) ring ↦
        elim (handle_char table ch (record c { ring = ring; priv = at_getch })) [
          | faulty ↦ fault
          | returns s c' ↦ done s c'
          | waits c' ↦ read_loop table fuel c'
        ]
  ]

  unfoldable pub console_run : Slots → ℕ → Console → Run
  unfolding read_loop run_child do_prompt
  console_run table fuel c = elim c.priv [
    | at_begin ↦ read_loop table fuel (if c.argc == 0 then do_prompt c else record c { bufp = 0 })
    | at_getch ↦ read_loop table fuel c
    | at_spawn ↦ elim (run_child c) [
      | faulty ↦ fault
      | returns s c' ↦ done s c'
      | waits c' ↦ read_loop table fuel c'
    ]
  ]

  -- The `do` loop of `console_process`, with at most `rounds` calls.
  unfoldable pub run_while_yielded : Slots → ℕ → ℕ → Console → Run
  unfolding console_run
  run_while_yielded table fuel zero c = out_of_fuel
  run_while_yielded table fuel (suc rounds) c = elim (console_run table fuel c) [
    | out_of_fuel ↦ out_of_fuel
    | fault ↦ fault
    | done s c' ↦
        let again = run_while_yielded table fuel rounds c' in
        if s == state_yielded then again else done s c'
  ]

  unfoldable pub console_process : Slots → ℕ → ℕ → Console → ℕ → Run
  unfolding Ring.put run_while_yielded
  console_process table fuel rounds c d =
      run_while_yielded table fuel rounds (record c { ring = (Ring.put c.ring (u8 d)).1 })
